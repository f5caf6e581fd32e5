-- ===== src/Platform/Options.antt =====
-- The command line of the platforms: platforms/*/src/main.cpp. `argv` is without the program's name,
-- and a text is its characters.
use cdc_vp.Base.{
  ℕ, ◌≡◌, refl, Bool, true, false, ◌&&◌, ◌||◌, ◌==◌, List, [], ◌∷◌, ◌++◌, if◌then◌else◌, arith,
}

abbrev pub Text : Type 0
Text = List ℕ

-- The equality of `std::string`.
unfoldable pub same : Text → Text → Bool
same [] [] = true
same [] (c ∷ t) = false
same (c ∷ s) [] = false
same (c ∷ s) (d ∷ t) = c == d && same s t

unfoldable pub get_opt : List Text → Text → Text → Text
get_opt [] name def = def
get_opt (arg ∷ []) name def = def
get_opt (arg ∷ next ∷ rest) name def =
    let later = get_opt (next ∷ rest) name def in if same arg name then next else later

unfoldable pub has_flag : List Text → Text → Bool
has_flag [] name = false
has_flag (arg ∷ rest) name = let later = has_flag rest name in if same arg name then true else later

abbrev pub short_option : Text
short_option = b'-' ∷ b'c' ∷ []

abbrev pub long_option : Text
long_option = b'-' ∷ b'-' ∷ b'c' ∷ b'o' ∷ b'n' ∷ b'f' ∷ b'i' ∷ b'g' ∷ []

-- `parse_config_path` of mini_tlm and of mini_soc, by the path that it returns without an option.
unfoldable pub parse_config_path : Text → List Text → Text
parse_config_path default_path [] = default_path
parse_config_path default_path (arg ∷ []) = default_path
parse_config_path default_path (arg ∷ next ∷ rest) =
    let later = parse_config_path default_path (next ∷ rest) in
    if same arg short_option || same arg long_option then next else later

same_refl : (t : Text) → same t t ≡ true
unfolding same
same_refl [] = refl
same_refl (c ∷ t) = ground (arith, same_refl t)

-- None of the arguments is the name.
abbrev pub Without : Text → List Text → Type 0
Without name [] = Unit {0}
Without name (arg ∷ rest) = (same arg name ≡ false) × Without name rest

get_opt-first :
    (name def v : Text) (before after : List Text)
    → Without name before
    → get_opt (before ++ name ∷ v ∷ after) name def ≡ v
unfolding get_opt
get_opt-first name def v [] after h = rw (same_refl name) refl
get_opt-first name def v (a ∷ []) after (h, hs) = rw (h, same_refl name) refl
get_opt-first name def v (a ∷ b ∷ before) after (h, hs) =
    rw h (get_opt-first name def v (b ∷ before) after hs)

get_opt-Without :
    (name def last : Text) (before : List Text)
    → Without name before
    → get_opt (before ++ last ∷ []) name def ≡ def
unfolding get_opt
get_opt-Without name def last [] h = refl
get_opt-Without name def last (a ∷ []) (h, hs) = rw h refl
get_opt-Without name def last (a ∷ b ∷ before) (h, hs) =
    rw h (get_opt-Without name def last (b ∷ before) hs)

-- The value of an option is the argument behind the first one that is its name; it is the default
-- if there is no argument, or if no argument but perhaps the last is the name.
pub get_opt_lem :
    (name def : Text) (before : List Text)
    → Without name before
    → ((v : Text) (after : List Text) → get_opt (before ++ name ∷ v ∷ after) name def ≡ v)
      × ((last : Text) → get_opt (before ++ last ∷ []) name def ≡ def)
      × (get_opt [] name def ≡ def)
unfolding get_opt
get_opt_lem name def before h = (
  λ v after. get_opt-first name def v before after h,
  λ last. get_opt-Without name def last before h,
  refl,
)
