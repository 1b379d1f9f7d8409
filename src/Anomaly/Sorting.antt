-- ===== src/Anomaly/Sorting.antt =====
-- The order in which anomaly.ts receives a history.
use mathlib.Core.List.{Perm, Permᴰ, Nodup, Nodup-cons, mem-cons_self}
use mathlib.Core.Logic.{∥∥₁_elim}
use mathlib.Core.List.Perm
use solva.Prelude.{ℕ, ◌≡◌, ◌≢◌, refl, ap, ◌∙◌, List, [], ◌∷◌, map, arith}
use solva.SharedTypes.{Proof}
use solva.Anomaly.{AnomalyThresholds, insert_by_time, sort_by_time, detect_anomalies, scan_ordered}

abbrev pub times : List Proof → List ℕ
times = map (λ p. p.published_at)

insert_by_time_comm :
    (p q : Proof) (ps : List Proof)
    → p.published_at ≢ q.published_at
    → insert_by_time p (insert_by_time q ps) ≡ insert_by_time q (insert_by_time p ps)
unfolding insert_by_time
insert_by_time_comm p q [] h = ground arith
insert_by_time_comm p q (r ∷ ps) h = ground (arith, insert_by_time_comm p q ps h)

sort_by_time-permᴰ :
    {ps qs : List Proof} → Permᴰ ps qs → Nodup (times ps) → sort_by_time ps ≡ sort_by_time qs
unfolding sort_by_time
sort_by_time-permᴰ Permᴰ.nil d = refl
sort_by_time-permᴰ (Permᴰ.cons {a} same s) d =
    rw (← same) (ap (insert_by_time a) (sort_by_time-permᴰ s (Nodup-cons.0 d).1))
sort_by_time-permᴰ (Permᴰ.swap {a} {b} {l} first second) d =
    rw (← first, ← second)
      (insert_by_time_comm a b (sort_by_time l) (λ e. (Nodup-cons.0 d).0 (rw e mem-cons_self)))
sort_by_time-permᴰ (Permᴰ.trans s t) d =
    sort_by_time-permᴰ s d ∙ sort_by_time-permᴰ t (Perm.nodup (Perm.map _ ∣ s ∣₁) d)

Proofs-set : IsSet (List Proof)
Proofs-set = hlevel

-- Whatever the order in which a history with distinct publish times arrives, the scan answers the
-- same: the same flags in the same order, or the same refusal.
pub detect_anomalies-perm :
    (thresholds : AnomalyThresholds) (ps qs : List Proof)
    → Perm ps qs
    → Nodup (times ps)
    → detect_anomalies thresholds ps ≡ detect_anomalies thresholds qs
unfolding detect_anomalies
detect_anomalies-perm thresholds ps qs s d =
    ap (scan_ordered thresholds) (∥∥₁_elim s (Proofs-set _ _) (λ t. sort_by_time-permᴰ t d))
