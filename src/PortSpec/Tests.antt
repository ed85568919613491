-- ===== src/PortSpec/Tests.antt =====
-- Runs of the parsers.
use whet.PortSpec.Bounds.{Ports, parse_forward-Ports}
use whet.PortSpec.Forward.{target_text, range_target, range_text, parse_forward_range}
use whet.Base.{◌≡◌, refl, codes, ℕ, arith}
use whet.Base.Result.{ok, err}
use whet.Base.Int.{pos, ◌+ℤ◌, ◌-ℤ◌}
use whet.Strings.{split}
use whet.Decimal.{atoi}
use whet.PortSpec.{parse_forward, parse_listen, tcp, invalid_target_port_index, ForwardTargetPort}

run_range :
    parse_forward (codes "range=localhost:10000-10010")
    ≡ ok (record {
      target_name = codes "range";
      host = codes "localhost";
      start_port = pos 10000;
      port_count = pos 11;
      forward_target_type = tcp;
    })
unfolding parse_forward split atoi ◌+ℤ◌ ◌-ℤ◌
run_range = refl

run_listen_range : parse_listen (codes "range-10010=localhost:8824") ≡ err invalid_target_port_index
unfolding parse_listen split atoi
run_listen_range = refl

parse_forward_range_example :
    parse_forward (target_text (codes "range") (codes "localhost") (range_text 10000 10010))
    ≡ ok (range_target (codes "range") (codes "localhost") 10000 10010)
parse_forward_range_example =
    parse_forward_range (codes "range") (codes "localhost") 10000 10010 (omega arith) (omega arith)
      (omega arith) (omega arith)

abbrev parsed_range : ForwardTargetPort
parsed_range = range_target (codes "range") (codes "localhost") 10000 10010

parse_forward-Ports_example : (first : ℕ) × (last : ℕ) × Ports parsed_range first last
unfolding parse_forward split atoi ◌+ℤ◌ ◌-ℤ◌
parse_forward-Ports_example =
    parse_forward-Ports (codes "range=localhost:10000-10010") parsed_range refl
