-- ===== src/Tests/Chars.antt =====
-- Strings in memory: "ab" at 10, "ac" at 20.
use cs503_lab.Base.{
  ℕ, ◌+◌, ◌≤◌, ◌<◌, ◌≡◌, refl, ◌⊎◌, inr, List, [], ◌∷◌, arith, ◌==◌, if◌then◌else◌, some,
}
use cs503_lab.Strings.{strcmp, strncpy}
use cs503_lab.Strings.Compare.{IsStr, char_at, Differ, strcmp-Differ}
use cs503_lab.Strings.Copy.{strncpy_lem}

abbrev bytes : ℕ → ℕ
bytes x =
    if x == 10
    then 97
    else if x == 11
    then 98
    else if x == 20
    then 97
    else if x == 21
    then 99
    else 0

abbrev ab : List ℕ
ab = 97 ∷ 98 ∷ []

abbrev ac : List ℕ
ac = 97 ∷ 99 ∷ []

ab_there : IsStr bytes 10 ab
unfolding IsStr
ab_there = (refl, omega arith, (refl, omega arith, refl))

ac_there : IsStr bytes 20 ac
unfolding IsStr
ac_there = (refl, omega arith, (refl, omega arith, refl))

strcmp-Differ_example :
    ((ab ≡ ac) × (strcmp 3 bytes 10 20 ≡ some 0))
    ⊎ ((k : ℕ) × (r : ℕ) × (strcmp 3 bytes 10 20 ≡ some r) × Differ ab ac k r)
strcmp-Differ_example = strcmp-Differ 3 bytes 10 20 ab ac ab_there ac_there (omega arith)

strncpy_lem_example :
    ((i : ℕ) → i < 5 → strncpy bytes 40 10 5 (40 + i) ≡ char_at i ab)
    × ((x : ℕ) → (x < 40) ⊎ (40 + 5 ≤ x) → strncpy bytes 40 10 5 x ≡ bytes x)
strncpy_lem_example = strncpy_lem bytes 40 10 5 ab ab_there (inr (omega arith))
