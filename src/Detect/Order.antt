-- ===== src/Detect/Order.antt =====
-- The order in which `main` of tools/detect.cc takes the records of its two files.
use racez.Base.{
  Bool, true, false, ◌≡◌, refl, ap, ◌∙◌, List, [], ◌∷◌, inl, inr, arith, ◌==◌, Bool-cases, all,
  Outcome, ok, fault, ◌>>=◌,
}
use racez.Record.{Record}
use racez.Detect.{Detector, offline_detection, detect_raw, detect_both}

-- The records in the order of their analysis.
unfoldable pub merge : List Record → List Record → List Record
merge [] set = []
merge (r ∷ raw) [] = []
merge (r ∷ raw) (q ∷ set) = elim (q.record_no == r.record_no) [
  | true ↦ q ∷ merge (r ∷ raw) set
  | false ↦ r ∷ merge raw (q ∷ set)
]

bind_ext {ℓ κ} :
    {A : Type ℓ} {B : Type κ} (m : Outcome A) (f g : A → Outcome B)
    → ((a : A) → f a ≡ g a)
    → (m >>= f) ≡ (m >>= g)
bind_ext (ok a) f g h = h a
bind_ext (fault e) f g h = refl

-- The loop over both files analyses the merged sequence, one record after the other.
pub detect_both-merge :
    (reuse : Bool) (raw set : List Record) (d : Detector)
    → detect_both reuse raw set d ≡ detect_raw reuse (merge raw set) d
unfolding detect_both detect_raw merge
detect_both-merge reuse [] set d = refl
detect_both-merge reuse (r ∷ raw) [] d = refl
detect_both-merge reuse (r ∷ raw) (q ∷ set) d = elim (Bool-cases (q.record_no == r.record_no)) [
  | inl same ↦
      rw (same, detect_both, merge)
        (bind_ext (offline_detection reuse q d) _ _ λ d'. detect_both-merge reuse (r ∷ raw) set d')
  | inr other ↦
      rw (other, detect_both, merge)
        (bind_ext (offline_detection reuse r d) _ _ λ d'. detect_both-merge reuse raw (q ∷ set) d')
]

merge_drops_rest :
    (r : Record) (raw set : List Record)
    → all (λ q. q.record_no == r.record_no) set ≡ true
    → merge (r ∷ raw) set ≡ set
unfolding merge
merge_drops_rest r raw [] h = refl
merge_drops_rest r raw (q ∷ set) h = ground (arith, merge_drops_rest r raw set)

-- Where all records of the set have the number of the raw record at hand, the loop over both files
-- analyses the set and ends: neither that raw record nor any later one is analysed.
pub detect_both_drops_rest :
    (reuse : Bool) (r : Record) (raw set : List Record) (d : Detector)
    → all (λ q. q.record_no == r.record_no) set ≡ true
    → detect_both reuse (r ∷ raw) set d ≡ detect_raw reuse set d
detect_both_drops_rest reuse r raw set d h =
    detect_both-merge reuse (r ∷ raw) set d
    ∙ ap (λ rs. detect_raw reuse rs d) (merge_drops_rest r raw set h)
