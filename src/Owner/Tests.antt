-- ===== src/Owner/Tests.antt =====
-- Labels, a line of /proc/<pid>/stat and a sweep, concretely.
use demesne.Base.{
  ℕ, ◌≡◌, refl, Bool, true, false, Option, none, some, List, [], ◌∷◌, ◌++◌, Str, codes, index_byte,
  parse_uint, parse_digits, decimal, trim_right, trim_space, fields, ok, pos, arith,
}
use demesne.Owner.{
  parse_starttime_from_stat, compute_owner, verdict_keep, classify_owner, process_alive, Candidate,
  Call, ReapError, boot_id_unread, read_boot_id, reap_orphans,
}
use demesne.Owner.Labels.{live_owner_kept}
use demesne.Owner.Reaping.{dead, gone, failures, calls_for, reap_exact_dead}

abbrev boot : Str
boot = codes "b-1"

abbrev nobody : ℕ → ℕ → Bool
nobody pid st = false

abbrev tail_of_stat : Str
tail_of_stat = codes " S 4 5 6 7 8 9 10 11 12 13 14 15 16 17 18 19 20 21 345 23\n"

abbrev stat : ℕ → Option Str
stat pid = some (codes "12 (a) b) (c)" ++ tail_of_stat)

own_label : compute_owner (some boot) stat (pos 12) ≡ ok (codes "b-1_12_345")
unfolding compute_owner parse_starttime_from_stat trim_right trim_space fields parse_uint
    parse_digits decimal
own_label = refl

live_owner_kept_example :
    classify_owner (codes "b-1_12_345") (trim_space boot) (process_alive stat) ≡ verdict_keep
unfolding index_byte trim_space
live_owner_kept_example =
    live_owner_kept boot stat 12 (codes "b-1_12_345") refl refl (omega arith) own_label

abbrev candidate : Str → Str → Bool → Candidate
candidate id owner goes = record {
  id = id;
  owner = owner;
  alive = nobody;
  sidecar_goes = goes;
  sandbox_goes = goes;
}

abbrev candidates : List Candidate
candidates =
    candidate (codes "x") (codes "b-0_1_2") true
    ∷ candidate (codes "y") (codes "b-1_1") true
    ∷ candidate (codes "z") (codes "b-1_1_2") false
    ∷ []

reap_exact_dead_example :
    let r = reap_orphans (some boot) (some candidates) in
    ◌≡◌ {A = ℕ × List ReapError × List Call}
      (r.reaped, r.errs, r.calls)
      (elim (read_boot_id (some boot)) [
        | none ↦ (0, boot_id_unread ∷ [], [])
        | some b ↦
            (gone (dead b candidates), failures (dead b candidates), calls_for (dead b candidates))
      ])
reap_exact_dead_example = reap_exact_dead (some boot) (some candidates)
