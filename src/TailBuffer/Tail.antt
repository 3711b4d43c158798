-- ===== src/TailBuffer/Tail.antt =====
-- What a tail buffer holds of the stream that was written to it.
use ruk.Prelude.{
  ℕ, ◌+◌, ◌-◌, ◌≤◌, ◌≡◌, refl, inl, inr, sym, ap, ◌∙◌, List, [], ◌∷◌, ◌++◌, ltb, ◌==◌, length, drop,
  arith, Bool-cases, length-append, length-drop,
}
use ruk.TailBuffer.{Buffer, new_tail_buffer, write, write_all}

-- The last n of a list, or all of it.
abbrev pub last : ℕ → List ℕ → List ℕ
last n xs = drop (length xs - n) xs

-- All bytes of a stream of writes.
abbrev pub stream : List (List ℕ) → List ℕ
stream [] = []
stream (bytes ∷ rest) = bytes ++ stream rest

drop-le : (n : ℕ) (xs ys : List ℕ) → n ≤ length xs → drop n (xs ++ ys) ≡ drop n xs ++ ys
drop-le ℕ.zero xs ys h = refl
drop-le (ℕ.suc n) [] ys h = ground (arith, h)
drop-le (ℕ.suc n) (x ∷ xs) ys h = drop-le n xs ys (omega (arith, h))

drop-ge : (n : ℕ) (xs ys : List ℕ) → length xs ≤ n → drop n (xs ++ ys) ≡ drop (n - length xs) ys
drop-ge n [] ys h = ground arith
drop-ge ℕ.zero (x ∷ xs) ys h = ground (arith, h)
drop-ge (ℕ.suc n) (x ∷ xs) ys h = ground (arith, h, drop-ge n xs ys)

drop-all : (n : ℕ) (xs : List ℕ) → length xs ≤ n → drop n xs ≡ []
drop-all ℕ.zero [] h = refl
drop-all ℕ.zero (x ∷ xs) h = ground (arith, h)
drop-all (ℕ.suc n) [] h = refl
drop-all (ℕ.suc n) (x ∷ xs) h = drop-all n xs (omega (arith, h))

drop-drop : (n m : ℕ) (xs : List ℕ) → drop n (drop m xs) ≡ drop (m + n) xs
drop-drop n ℕ.zero xs = ground arith
drop-drop ℕ.zero (ℕ.suc m) [] = ground arith
drop-drop (ℕ.suc n) (ℕ.suc m) [] = sym (drop-all (ℕ.suc m + ℕ.suc n) [] (omega arith))
drop-drop n (ℕ.suc m) (x ∷ xs) =
    let same : ℕ.suc (m + n) ≡ ℕ.suc m + n = omega arith in
    drop-drop n m xs ∙ ap (λ k. drop k (x ∷ xs)) same

-- A suffix of the tail and of the whole is the same, once it is short enough.
last-append : (n : ℕ) (xs ys : List ℕ) → last n (last n xs ++ ys) ≡ last n (xs ++ ys)
last-append n xs ys =
    let k = length xs - n in
    let inner = drop-le k xs ys (omega arith) in
    let whole = length-append xs ys in
    let rest = length-drop k (xs ++ ys) in
    let count : k + (length (drop k (xs ++ ys)) - n) ≡ length (xs ++ ys) - n =
      omega (arith, whole, rest) in
    ap (λ zs. drop (length zs - n) zs) (sym inner)
    ∙ drop-drop (length (drop k (xs ++ ys)) - n) k (xs ++ ys)
    ∙ ap (λ m. drop m (xs ++ ys)) count

append-nil : (xs : List ℕ) → xs ++ [] ≡ xs
append-nil [] = refl
append-nil (x ∷ xs) = ap (λ ys. x ∷ ys) (append-nil xs)

append_assoc : (xs ys zs : List ℕ) → (xs ++ ys) ++ zs ≡ xs ++ (ys ++ zs)
append_assoc [] ys zs = refl
append_assoc (x ∷ xs) ys zs = ap (λ ws. x ∷ ws) (append_assoc xs ys zs)

-- A list that is short enough is all of its tail, and no tail is longer than asked.
last-all : (n : ℕ) (xs : List ℕ) → length xs ≤ n → last n xs ≡ xs
last-all n xs h =
    let none_left : length xs - n ≡ 0 = omega (arith, h) in ap (λ k. drop k xs) none_left

length-last : (n : ℕ) (xs : List ℕ) → length (last n xs) ≤ n
length-last n xs = omega (arith, length-drop (length xs - n) xs)

-- Whenever a buffer holds at most as many bytes as its limit, a write leaves the last bytes of what
-- it held followed by what was written, as many as the limit, and the limit itself as it was.
pub write-last :
    (bytes : List ℕ) (b : Buffer)
    → length b.tail ≤ b.limit
    → ((write bytes b).tail ≡ last b.limit (b.tail ++ bytes)) × ((write bytes b).limit ≡ b.limit)
unfolding write
write-last bytes b h = elim (Bool-cases (b.limit == 0)) [
  | inl zero ↦ ground (
    arith,
    zero,
    drop-all (length (b.tail ++ bytes)) (b.tail ++ bytes),
    length-append b.tail bytes,
    drop-all 0 b.tail,
  )
  | inr positive ↦ elim (Bool-cases (ltb b.limit (length bytes))) [
    | inl more ↦ ground (
      arith,
      positive,
      more,
      drop-ge (length (b.tail ++ bytes) - b.limit) b.tail bytes,
      length-append b.tail bytes,
    )
    | inr fits ↦ elim (Bool-cases (length bytes == b.limit)) [
      | inl full ↦ ground (
        arith,
        positive,
        fits,
        full,
        drop-ge (length (b.tail ++ bytes) - b.limit) b.tail bytes,
        length-append b.tail bytes,
      )
      | inr fewer ↦ elim (Bool-cases (ltb b.limit (length b.tail + length bytes))) [
        | inl over ↦ ground (
          arith,
          positive,
          fits,
          fewer,
          over,
          drop-le (length (b.tail ++ bytes) - b.limit) b.tail bytes,
          length-append b.tail bytes,
        )
        | inr under ↦ ground (arith, positive, fits, fewer, under, length-append b.tail bytes)
      ]
    ]
  ]
]

-- After any stream of writes, a buffer that was empty holds the last bytes of the stream, as many as
-- its limit.
pub write_all-last :
    (limit : ℕ) (writes : List (List ℕ))
    → (write_all writes (new_tail_buffer limit)).tail ≡ last limit (stream writes)
unfolding write_all
write_all-last limit writes = from_buffer writes (new_tail_buffer limit) (omega arith)
  where
    from_buffer :
        (writes : List (List ℕ)) (b : Buffer)
        → length b.tail ≤ b.limit
        → (write_all writes b).tail ≡ last b.limit (b.tail ++ stream writes)
    from_buffer [] b h =
        sym (ap (λ xs. last b.limit xs) (append-nil b.tail) ∙ last-all b.limit b.tail h)
    from_buffer (bytes ∷ rest) b h =
        let (is, same) = write-last bytes b h in
        let short = length-last b.limit (b.tail ++ bytes) in
        let next = from_buffer rest (write bytes b) (rw (is, same) short) in
        next
        ∙ ap (λ n. last n ((write bytes b).tail ++ stream rest)) same
        ∙ ap (λ xs. last b.limit (xs ++ stream rest)) is
        ∙ last-append b.limit (b.tail ++ bytes) (stream rest)
        ∙ ap (λ xs. last b.limit xs) (append_assoc b.tail bytes (stream rest))
