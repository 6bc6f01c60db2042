-- ===== src/Tests/Versions.antt =====
-- Two versions of an agreement, and ASCII for the Unicode database.
use contract_change_intel.Prelude.{
  ℕ, ◌+◌, ◌-◌, ◌/◌, ◌%◌, Text, codes, [], ◌∷◌, Bool, ◌≡◌, All, ltb, leb, ◌==◌, ◌&&◌, ◌||◌, not,
  if◌then◌else◌, exists, map, length,
}
use contract_change_intel.Diffing.Keys.{Unicode}
use contract_change_intel.Diffing.Sections.{sections}
use contract_change_intel.Diffing.Align.{detect_changes}
use contract_change_intel.Diffing.Align.Identity.{detect_changes-same}
use contract_change_intel.Diffing.Align.Account.{
  count_if, is_removed, is_added, detect_changes_accounts,
}
use contract_change_intel.Diffing.Align.Sound.{Explained, detect_changes-Explained}

abbrev is_capital : ℕ → Bool
is_capital c = leb 65 c && leb c 90

abbrev is_small : ℕ → Bool
is_small c = leb 97 c && leb c 122

abbrev lower : ℕ → ℕ
lower c = if is_capital c then c + 32 else c

abbrev pub ascii : Unicode
ascii = record {
  is_digit = λ c. leb 48 c && leb c 57;
  digit = λ c. c - 48;
  same_letter = λ a b. lower a == lower b;
  is_alpha = λ c. is_capital c || is_small c;
  is_upper = λ s. exists is_capital s && not (exists is_small s);
  casefold = map lower;
  decimal = λ n. if ltb n 10 then (48 + n) ∷ [] else (48 + n / 10) ∷ (48 + n % 10) ∷ [];
}

abbrev base : Text
base = codes "1. Fee"

abbrev amended : Text
amended = codes "2. Term"

detect_changes-same_example : detect_changes ascii base base ≡ []
detect_changes-same_example = detect_changes-same ascii base

detect_changes_accounts_example :
    count_if is_removed (detect_changes ascii base amended) + length (sections ascii amended)
    ≡ count_if is_added (detect_changes ascii base amended) + length (sections ascii base)
detect_changes_accounts_example = detect_changes_accounts ascii base amended

detect_changes-Explained_example :
    All
      (Explained base amended (sections ascii base) (sections ascii amended))
      (detect_changes ascii base amended)
detect_changes-Explained_example = detect_changes-Explained ascii base amended
