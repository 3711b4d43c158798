-- ===== src/Versions/Print.antt =====
-- String of internal/update/version.go. The decimal of "%d" is written out: each round takes the last
-- digit of the number, so as many rounds as the number itself are enough fuel.
use ruk.Prelude.{
  ℕ, suc, ◌+◌, ◌*◌, ◌/◌, ◌%◌, ◌≤◌, ◌<◌, ◌≡◌, ◌∙◌, refl, List, [], ◌∷◌, ◌++◌, ◌==◌, if◌then◌else◌,
  is_empty, arith,
}
use ruk.Versions.{Text, Version}

unfoldable pub digits_within : ℕ → ℕ → Text → Text
digits_within ℕ.zero n out = out
digits_within (ℕ.suc fuel) n out =
    let more = digits_within fuel (n / 10) ((48 + n % 10) ∷ out) in if n == 0 then out else more

-- The digits of a number that is not 0, before the text given.
unfoldable pub digits : ℕ → Text → Text
unfolding digits_within
digits n out = digits_within n n out

unfoldable pub decimal : ℕ → Text
unfolding digits
decimal n = if n == 0 then 48 ∷ [] else digits n []

-- strings.Join(version.Prerelease, ".")
unfoldable pub join_dots : List Text → Text
join_dots [] = []
join_dots (part ∷ []) = part
join_dots (part ∷ next ∷ parts) = part ++ (46 ∷ join_dots (next ∷ parts))

unfoldable pub version_string : Version → Text
unfolding decimal join_dots
version_string v =
    let core = join_dots (decimal v.major ∷ decimal v.minor ∷ decimal v.patch ∷ []) in
    if is_empty v.prerelease then core else core ++ (45 ∷ join_dots v.prerelease)

enough_fuel :
    (f g n : ℕ) (out : Text) → n ≤ f → n ≤ g → digits_within f n out ≡ digits_within g n out
unfolding digits_within
enough_fuel ℕ.zero ℕ.zero n out hf hg = refl
enough_fuel ℕ.zero (ℕ.suc g) n out hf hg = ground (arith, hf)
enough_fuel (ℕ.suc f) ℕ.zero n out hf hg = ground (arith, hg)
enough_fuel (ℕ.suc f) (ℕ.suc g) n out hf hg =
    ground (arith, hf, hg, enough_fuel f g (n / 10) ((48 + n % 10) ∷ out))

digits_step : (n : ℕ) (out : Text) → 0 < n → digits n out ≡ digits (n / 10) ((48 + n % 10) ∷ out)
unfolding digits digits_within
digits_step ℕ.zero out positive = ground (arith, positive)
digits_step (ℕ.suc k) out positive =
    let next =
      enough_fuel k (suc k / 10) (suc k / 10) ((48 + suc k % 10) ∷ out) (omega arith)
        (omega arith) in
    ground (arith, next)

-- The last digit of a number is printed behind the others.
pub digits-last :
    (n d : ℕ) (out : Text)
    → d ≤ 9
    → 0 < n * 10 + d
    → digits (n * 10 + d) out ≡ digits n ((48 + d) ∷ out)
digits-last n d out small positive =
    let rest : (n * 10 + d) / 10 ≡ n = omega (arith, small) in
    let last : (n * 10 + d) % 10 ≡ d = omega (arith, small) in
    digits_step (n * 10 + d) out positive ∙ rw rest (rw last refl)

pub digits_zero : (out : Text) → digits 0 out ≡ out
unfolding digits digits_within
digits_zero out = refl
