-- ===== src/Detect/Command/Options.antt =====
-- What the options of tools/detect.cc set: the last of each letter counts.
use racez.Base.{
  ℕ, ◌≡◌, refl, ◌∙◌, ap, Bool, true, false, ◌||◌, List, [], ◌∷◌, Option, some, arith, ◌==◌,
  if◌then◌else◌, all, and_split,
}
use racez.Detect.Command.{
  Text, Opt, Settings, b_letter, i_letter, n_letter, o_letter, m_letter, set_option, set_options,
}

abbrev pub is_known : Opt → Bool
is_known x =
    x.i == b_letter || x.i == i_letter || x.i == n_letter || x.i == o_letter || x.i == m_letter

-- The argument of the last option with the letter, or what was there before.
abbrev pub last_of : ℕ → List Opt → Option Text → Option Text
last_of c [] before = before
last_of c (x ∷ xs) before = last_of c xs (if x.i == c then some x.optarg else before)

abbrev pub is_given : ℕ → List Opt → Bool
is_given c [] = false
is_given c (x ∷ xs) = x.i == c || is_given c xs

abbrev pub last_text : ℕ → List Opt → Text → Text
last_text c [] before = before
last_text c (x ∷ xs) before = last_text c xs (if x.i == c then x.optarg else before)

pub record AreSet (xs : List Opt) (s s' : Settings) : Type 0 where
  pub binary : s'.binary ≡ last_text b_letter xs s.binary
  pub input : s'.input_file ≡ last_of i_letter xs s.input_file
  pub new_input : s'.new_input_file ≡ last_of n_letter xs s.new_input_file
  pub output : s'.output_file ≡ last_of o_letter xs s.output_file
  pub reuse : s'.enable_memory_reuse ≡ (s.enable_memory_reuse || is_given m_letter xs)

-- One option.
record IsSetting (x : Opt) (s s' : Settings) : Type 0 where
  binary : s'.binary ≡ (if x.i == b_letter then x.optarg else s.binary)
  input : s'.input_file ≡ (if x.i == i_letter then some x.optarg else s.input_file)
  new_input : s'.new_input_file ≡ (if x.i == n_letter then some x.optarg else s.new_input_file)
  output : s'.output_file ≡ (if x.i == o_letter then some x.optarg else s.output_file)
  reuse : s'.enable_memory_reuse ≡ (s.enable_memory_reuse || x.i == m_letter)

set_option_lem :
    (x : Opt) (s : Settings)
    → is_known x ≡ true
    → (s' : Settings) × (set_option x s ≡ some s') × IsSetting x s s'
unfolding set_option
set_option_lem x s e = (
  record {
    binary = if x.i == b_letter then x.optarg else s.binary;
    input_file = if x.i == i_letter then some x.optarg else s.input_file;
    new_input_file = if x.i == n_letter then some x.optarg else s.new_input_file;
    output_file = if x.i == o_letter then some x.optarg else s.output_file;
    enable_memory_reuse = s.enable_memory_reuse || x.i == m_letter;
  },
  ground arith,
  record { binary = refl; input = refl; new_input = refl; output = refl; reuse = refl },
)

pub set_options_lem :
    (xs : List Opt) (s : Settings)
    → all is_known xs ≡ true
    → (s' : Settings) × (set_options xs s ≡ some s') × AreSet xs s s'
unfolding set_options
set_options_lem [] s e = (
  s,
  refl,
  record { binary = refl; input = refl; new_input = refl; output = refl; reuse = ground arith },
)
set_options_lem (x ∷ xs) s e =
    let (known, rest) = and_split (is_known x) (all is_known xs) e in
    let (s₁, first, v) = set_option_lem x s known in
    let (s', done, w) = set_options_lem xs s₁ rest in
    (
      s',
      rw (set_options, first) done,
      record {
        binary = w.binary ∙ ap (last_text b_letter xs) v.binary;
        input = w.input ∙ ap (last_of i_letter xs) v.input;
        new_input = w.new_input ∙ ap (last_of n_letter xs) v.new_input;
        output = w.output ∙ ap (last_of o_letter xs) v.output;
        reuse = ground (arith, w.reuse, v.reuse);
      },
    )
