-- ===== src/Capture/Reader/Bytes.antt =====
-- The loops of pcapio.rs that fill a buffer, on a reader that does not fail: how its bytes are cut
-- into arrivals, and interrupted calls between them, make no difference.
use network_l4_monitoring_co.Base.{
  ℕ, zero, suc, ◌-◌, ◌≤◌, ◌<◌, ◌≡◌, refl, sym, ap, ◌∙◌, String, List, [], ◌∷◌, ◌++◌, none, some,
  leb, length, take, drop, arith, Bool-cases, inl, inr, length-append,
}
use network_l4_monitoring_co.Core.Error.{parse, Result, ok, err}
use network_l4_monitoring_co.Capture.Reader.{
  chunk, interrupted, failed, Reader, put_back, fill, read_full_opt,
}

-- The bytes that the reader has.
abbrev pub bytes : {E : Type 0} → Reader E → List ℕ
bytes [] = []
bytes (chunk bs ∷ r) = bs ++ bytes r
bytes (interrupted ∷ r) = bytes r
bytes (failed e ∷ r) = []

-- No call fails, and no call returns 0 before the end.
abbrev pub Clean : {E : Type 0} → Reader E → Type 0
Clean [] = Unit
Clean (chunk [] ∷ r) = ⊥
Clean (chunk (b ∷ bs) ∷ r) = Clean r
Clean (interrupted ∷ r) = Clean r
Clean (failed e ∷ r) = ⊥

module _ {ℓ} {A : Type ℓ} where
  take-append_ge :
      (n : ℕ) (xs ys : List A) → length xs ≤ n → take n (xs ++ ys) ≡ xs ++ take (n - length xs) ys
  take-append_ge n [] ys h = ground arith
  take-append_ge zero (x ∷ xs) ys h = absurd (omega arith)
  take-append_ge (suc n) (x ∷ xs) ys h = ground (arith, take-append_ge n xs ys)

  drop-append_ge :
      (n : ℕ) (xs ys : List A) → length xs ≤ n → drop n (xs ++ ys) ≡ drop (n - length xs) ys
  drop-append_ge n [] ys h = ground arith
  drop-append_ge zero (x ∷ xs) ys h = absurd (omega arith)
  drop-append_ge (suc n) (x ∷ xs) ys h = ground (arith, drop-append_ge n xs ys)

  take-append_lt : (n : ℕ) (xs ys : List A) → n ≤ length xs → take n (xs ++ ys) ≡ take n xs
  take-append_lt zero xs ys h = refl
  take-append_lt (suc n) [] ys h = absurd (omega arith)
  take-append_lt (suc n) (x ∷ xs) ys h = ap (λ l. x ∷ l) (take-append_lt n xs ys (omega arith))

  drop-append_lt : (n : ℕ) (xs ys : List A) → n ≤ length xs → drop n (xs ++ ys) ≡ drop n xs ++ ys
  drop-append_lt zero xs ys h = refl
  drop-append_lt (suc n) [] ys h = absurd (omega arith)
  drop-append_lt (suc n) (x ∷ xs) ys h = drop-append_lt n xs ys (omega arith)

module _ {E : Type 0} where
  bytes-put_back : (bs : List ℕ) (r : Reader E) → bytes (put_back bs r) ≡ bs ++ bytes r
  bytes-put_back [] r = refl
  bytes-put_back (b ∷ bs) r = refl

  put_back-Clean : (bs : List ℕ) (r : Reader E) → Clean r → Clean (put_back bs r)
  put_back-Clean [] r c = c
  put_back-Clean (b ∷ bs) r c = c

  -- What a reader that has `n` bytes gives for a buffer of that size, and what it has then.
  abbrev pub Filled : ℕ → Reader E → Result E (List ℕ × Reader E) → Type 0
  Filled n r got =
      (r' : Reader E) × (got ≡ ok (take n (bytes r), r')) × (bytes r' ≡ drop n (bytes r)) × Clean r'

  pub fill-Filled :
      (why : String) (n : ℕ) (r : Reader E)
      → Clean r
      → n ≤ length (bytes r)
      → Filled n r (fill why n r)
  unfolding fill
  fill-Filled why zero r c h = (r, refl, refl, c)
  fill-Filled why (suc n) [] c h = absurd (omega arith)
  fill-Filled why (suc n) (chunk [] ∷ r) c h = elim c [ ]
  fill-Filled why (suc n) (failed e ∷ r) c h = elim c [ ]
  fill-Filled why (suc n) (interrupted ∷ r) c h = fill-Filled why (suc n) r c h
  fill-Filled why (suc n) (chunk (b ∷ bs) ∷ r) c h = elim (Bool-cases (leb (length bs) n)) [
    | inl fits ↦
        let (r', got, left, clean) =
          fill-Filled why (n - length bs) r c (omega (arith, length-append bs (bytes r))) in
        (
          r',
          ground (arith, got, take-append_ge n bs (bytes r)),
          ground (arith, left, drop-append_ge n bs (bytes r)),
          clean,
        )
    | inr over ↦ (
      put_back (drop n bs) r,
      ground (arith, take-append_lt n bs (bytes r)),
      bytes-put_back (drop n bs) r ∙ sym (drop-append_lt n bs (bytes r) (ground arith)),
      put_back-Clean (drop n bs) r c,
    )
  ]

  -- A reader that has fewer bytes.
  pub fill-short :
      (why : String) (n : ℕ) (r : Reader E)
      → Clean r
      → length (bytes r) < n
      → fill why n r ≡ err (parse why)
  unfolding fill
  fill-short why zero r c h = absurd (omega arith)
  fill-short why (suc n) [] c h = refl
  fill-short why (suc n) (chunk [] ∷ r) c h = elim c [ ]
  fill-short why (suc n) (failed e ∷ r) c h = elim c [ ]
  fill-short why (suc n) (interrupted ∷ r) c h = fill-short why (suc n) r c h
  fill-short why (suc n) (chunk (b ∷ bs) ∷ r) c h =
      ground (arith, length-append bs (bytes r), fill-short why (n - length bs) r c)

  pub read_full_opt-some :
      (n : ℕ) (r : Reader E)
      → Clean r
      → 0 < n
      → n ≤ length (bytes r)
      → (r' : Reader E) × (read_full_opt n r ≡ ok (some (take n (bytes r)), r'))
        × (bytes r' ≡ drop n (bytes r))
        × Clean r'
  unfolding read_full_opt
  read_full_opt-some zero r c p h = absurd (omega arith)
  read_full_opt-some (suc n) [] c p h = absurd (omega arith)
  read_full_opt-some (suc n) (chunk [] ∷ r) c p h = elim c [ ]
  read_full_opt-some (suc n) (failed e ∷ r) c p h = elim c [ ]
  read_full_opt-some (suc n) (interrupted ∷ r) c p h = read_full_opt-some (suc n) r c p h
  read_full_opt-some (suc n) (chunk (b ∷ bs) ∷ r) c p h =
      let (r', got, left, clean) =
        fill-Filled "truncated pcap record header" (suc n) (chunk (b ∷ bs) ∷ r) c h in
      (r', ground (arith, got), left, clean)

  pub read_full_opt-none :
      (n : ℕ) (r : Reader E)
      → Clean r
      → bytes r ≡ []
      → (r' : Reader E) × (read_full_opt (suc n) r ≡ ok (none, r')) × (bytes r' ≡ [])
  unfolding read_full_opt
  read_full_opt-none n [] c h = ([], refl, refl)
  read_full_opt-none n (chunk [] ∷ r) c h = elim c [ ]
  read_full_opt-none n (failed e ∷ r) c h = elim c [ ]
  read_full_opt-none n (interrupted ∷ r) c h = read_full_opt-none n r c h
  read_full_opt-none n (chunk (b ∷ bs) ∷ r) c h = cc
