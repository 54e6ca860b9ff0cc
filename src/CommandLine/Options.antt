-- ===== src/CommandLine/Options.antt =====
-- Which argument decides what the command line means.
use Prim.Native.String.{String}
use mathlib.Core.Path.{subst}
use pg_walview.Prelude.{
  ◌≤◌, ◌≡◌, ◌↔◌, ◌⊎◌, refl, ap, ◌∙◌, sym, true, false, Option, none, some, List, [], ◌∷◌, ◌++◌,
  length, All, if◌then◌else◌, arith, Bool-cases, inl, inr,
}
use pg_walview.CommandLine.{
  help, version, open_file, Parsed, accepted, unknown_option, expected_one_file, is_help,
  is_version, is_option, parse_rest, parse_args,
}

-- A file name: neither of the flags, nor anything else that begins with a dash, but for a lone one.
abbrev pub IsFile : String → Type 0
IsFile arg = (is_help arg ≡ false) × (is_version arg ≡ false) × (is_option arg ≡ false)

-- What an option stands for.
abbrev pub option_meaning : String → Parsed
option_meaning arg =
    if is_help arg
    then accepted help
    else if is_version arg
    then accepted version
    else unknown_option arg

abbrev pub IsOption : String → Type 0
IsOption arg = (is_help arg ≡ true) ⊎ (is_version arg ≡ true) ⊎ (is_option arg ≡ true)

parse_rest-option :
    (path : Option String) (option : String) (rest : List String)
    → IsOption option
    → parse_rest path (option ∷ rest) ≡ option_meaning option
unfolding parse_rest
parse_rest-option path option rest h = ground arith

parse_rest-file :
    (file : String) (rest : List String)
    → IsFile file
    → parse_rest none (file ∷ rest) ≡ parse_rest (some file) rest
unfolding parse_rest
parse_rest-file file rest (h, v, o) = rw (h, v, o) refl

parse_rest-second :
    (p file : String) (rest : List String)
    → IsFile file
    → parse_rest (some p) (file ∷ rest) ≡ expected_one_file
unfolding parse_rest
parse_rest-second p file rest (h, v, o) = rw (h, v, o) refl

-- With one file at most before it, the first option decides, whatever stands behind it: help, the
-- version, or the error that the option is unknown.
pub parse_args-option :
    (name option : String) (files rest : List String)
    → length files ≤ 1
    → All IsFile files
    → IsOption option
    → parse_args (name ∷ (files ++ (option ∷ rest))) ≡ option_meaning option
unfolding parse_args
parse_args-option name option [] rest few all is = parse_rest-option none option rest is
parse_args-option name option (file ∷ []) rest few (is_file, all) is =
    parse_rest-file file (option ∷ rest) is_file ∙ parse_rest-option (some file) option rest is
parse_args-option name option (file ∷ second ∷ files) rest few all is = absurd (omega arith)

accepted_path : {p q : String} → accepted (open_file p) ≡ accepted (open_file q) → p ≡ q
accepted_path h = cc

not_opened : (p : String) → ¬ (expected_one_file ≡ accepted (open_file p))
not_opened p h = cc

IsFile-or_IsOption : (arg : String) → IsFile arg ⊎ IsOption arg
IsFile-or_IsOption arg = elim (Bool-cases (is_help arg)) [
  | inl h ↦ inr (inl h)
  | inr h ↦ elim (Bool-cases (is_version arg)) [
    | inl v ↦ inr (inr (inl v))
    | inr v ↦ elim (Bool-cases (is_option arg)) [
      | inl o ↦ inr (inr (inr o))
      | inr o ↦ inl (h, v, o)
    ]
  ]
]

option_meaning-ne-open : (arg p : String) → ¬ (option_meaning arg ≡ accepted (open_file p))
option_meaning-ne-open arg p h = ground arith

option_first :
    (path : Option String) (arg p : String) (rest : List String)
    → IsOption arg
    → ¬ (parse_rest path (arg ∷ rest) ≡ accepted (open_file p))
option_first path arg p rest is h =
    option_meaning-ne-open arg p (sym (parse_rest-option path arg rest is) ∙ h)

opened_args :
    (args : List String) (p : String)
    → parse_rest none args ≡ accepted (open_file p)
    → (args ≡ p ∷ []) × IsFile p
unfolding parse_rest
opened_args [] p h = absurd (cc)
opened_args (arg ∷ []) p h = elim (IsFile-or_IsOption arg) [
  | inl f ↦
      let same : arg ≡ p = accepted_path (sym (parse_rest-file arg [] f) ∙ h) in
      (ap (λ a. a ∷ []) same, subst IsFile same f)
  | inr is ↦ absurd (option_first none arg p [] is h)
]
opened_args (arg ∷ second ∷ rest) p h = elim (IsFile-or_IsOption arg) [
  | inl f ↦ elim (IsFile-or_IsOption second) [
    | inl g ↦ absurd (
        not_opened p (
          sym (parse_rest-second arg second rest g)
          ∙ sym (parse_rest-file arg (second ∷ rest) f)
          ∙ h))
    | inr is ↦
        absurd (
          option_first (some arg) second p rest is
            (sym (parse_rest-file arg (second ∷ rest) f) ∙ h))
  ]
  | inr is ↦ absurd (option_first none arg p (second ∷ rest) is h)
]

-- A file is opened when it is the one argument, and only then.
pub parse_args-open :
    (name p : String) (args : List String)
    → (parse_args (name ∷ args) ≡ accepted (open_file p)) ↔ ((args ≡ p ∷ []) × IsFile p)
unfolding parse_args parse_rest
parse_args-open name p args = (opened_args args p, λ h. rw h.0 (parse_rest-file p [] h.1))
