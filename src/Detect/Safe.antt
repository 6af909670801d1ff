-- ===== src/Detect/Safe.antt =====
-- Steps of tools/detect.cc that end well, or stop in a call of `get_filename`.
use racez.Base.{ℕ, ◌≡◌, sym, subst, Outcome, ok, fault, ◌>>=◌}
use racez.Report.Filename.{Answers}
use racez.Report.Laws.{OrUnnamed, OrUnnamed-bind, OrUnnamed-Answers}
use racez.Detect.{Detector}

-- The step keeps the binary and its commands and ends as said, or it stopped in `get_filename`.
abbrev pub Safely : (Detector → Type 0) → Detector → Outcome Detector → Type 0
Safely P d o = OrUnnamed d.symbolizer (λ d'. (d'.symbolizer ≡ d.symbolizer) × P d') o

module _ (P : Detector → Type 0) (d : Detector) where
  pub Safely-ok :
      (o : Outcome Detector) (d' : Detector)
      → o ≡ ok d'
      → d'.symbolizer ≡ d.symbolizer
      → P d'
      → Safely P d o
  Safely-ok o d' e same h = subst (Safely P d) (sym e) (same, h)

  pub Safely-result : (o : Outcome Detector) (d' : Detector) → Safely P d o → o ≡ ok d' → P d'
  Safely-result o d' h e = let (same, p) = subst (Safely P d) e h in p

  pub Safely-Answers :
      (o : Outcome Detector)
      → ((addr : ℕ) → Answers d.symbolizer addr)
      → Safely P d o
      → (d' : Detector) × (o ≡ ok d') × P d'
  Safely-Answers o v h = let (d', e, p) = OrUnnamed-Answers d.symbolizer _ o v h in (d', e, p.1)

  pub Safely-map :
      (Q : Detector → Type 0) (o : Outcome Detector)
      → Safely P d o
      → ((d' : Detector) → P d' → Q d')
      → Safely Q d o
  Safely-map Q (ok d') h k = (h.0, k d' h.1)
  Safely-map Q (fault e) h k = h

  pub Safely-bind :
      (Q : Detector → Type 0) (o : Outcome Detector) (f : Detector → Outcome Detector)
      → Safely P d o
      → ((d' : Detector) → P d' → Safely Q d' (f d'))
      → Safely Q d (o >>= f)
  Safely-bind Q o f h k =
      OrUnnamed-bind d.symbolizer _ _ o f h (λ d' p.
        subst (λ w. OrUnnamed w (λ d''. (d''.symbolizer ≡ w) × Q d'') (f d')) p.0 (k d' p.1))
