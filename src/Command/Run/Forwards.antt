-- ===== src/Command/Run/Forwards.antt =====
-- What a client forwards.
use whet.PortSpec.Slice.{latest, parse_listen_all-latest}
use whet.Base.Result.{ok}
use whet.Base.Assoc.{lookup, Assoc}
use whet.Base.{
  ◌∷◌, refl, List, Bytes, Option, Bool, some, none, ◌≡◌, arith, [], Bool-cases, bytes_eq, ◌∙◌, inl,
  ap, inr,
}
use whet.Command.Run.{open_sockets, run_client, Forward, forward_of, add_forward, local_addr}
use whet.PortSpec.{ListenTargetPort, parse_listen_all, parse_listen}

abbrev pub forwarded : (ListenTargetPort → Forward) → Option ListenTargetPort → Option Forward
forwarded f none = none
forwarded f (some l) = some (f l)

lookup-add_forward :
    (k j : Bytes) (f : ListenTargetPort → Forward) (l : ListenTargetPort)
    (ls : Assoc ListenTargetPort) (o : Option (Assoc Forward)) (fs : Assoc Forward)
    → ((gs : Assoc Forward) → o ≡ some gs → lookup k gs ≡ forwarded f (lookup k ls))
    → add_forward j (f l) o ≡ some fs
    → lookup k fs ≡ forwarded f (lookup k ((j, l) ∷ ls))
unfolding add_forward lookup
lookup-add_forward k j f l ls none fs ih h = cc
lookup-add_forward k j f l ls (some gs) fs ih h =
    let same : (j, f l) ∷ gs ≡ fs = ground (arith, h) in
    rw⁻¹ same (elim (Bool-cases (bytes_eq j k)) [ inl e ↦ rw e | inr e ↦ rw e (ih gs refl) ])

open_sockets-lookup :
    (listens : List Bytes → Bytes → Bool) (f : ListenTargetPort → Forward) (opened : List Bytes)
    (ls : Assoc ListenTargetPort) (fs : Assoc Forward) (k : Bytes)
    → open_sockets listens f opened ls ≡ some fs
    → lookup k fs ≡ forwarded f (lookup k ls)
unfolding open_sockets lookup
open_sockets-lookup listens f opened [] fs k h = ground (arith, h)
open_sockets-lookup listens f opened ((j, l) ∷ ls) fs k h =
    elim (Bool-cases (listens opened (local_addr l))) [
      | inl e ↦
          lookup-add_forward k j f l ls (open_sockets listens f (local_addr l ∷ opened) ls) fs
            (λ gs. open_sockets-lookup listens f (local_addr l ∷ opened) ls gs k) (rw e at h)
      | inr e ↦ cc (rw e at h)
    ]

-- A client that runs forwards every target that the parser takes from the texts of `-tcplisten` at the
-- address of the last text for it, with the token it was given, and no other; an earlier text for the same
-- target opens no socket. Targets are compared as they are written, case included, and the parser takes
-- the part before a dash: it is asked for without the index behind it.
pub run_client_forwards :
    (listens : List Bytes → Bytes → Bool) (server token : Bytes) (detached : Bool)
    (ids : List Bytes) (ls : Assoc ListenTargetPort) (fs : Assoc Forward) (k : Bytes)
    → parse_listen_all ids ≡ ok ls
    → run_client listens server token detached ls ≡ some fs
    → lookup k fs
      ≡ forwarded
          (forward_of server token detached)
          (latest parse_listen (λ t. t.target_name) k ids)
unfolding run_client
run_client_forwards listens server token detached ids ls fs k h r =
    open_sockets-lookup listens (forward_of server token detached) [] ls fs k r
    ∙ ap (forwarded (forward_of server token detached)) (parse_listen_all-latest ids ls k h)
