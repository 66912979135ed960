-- ===== src/Capture/Event/Overwrite.antt =====
-- The bytes of a file after a write.
use usbscope.Prelude.{
  ℕ, zero, suc, ◌+◌, ◌-◌, ◌<◌, ◌≤◌, ◌≡◌, ap, ◌∙◌, arith, List, [], ◌∷◌, ◌++◌, refl, append-nil,
  take-all, length, length-append, length-take, length-replicate, replicate, take, drop, get_elem?,
  get_elem?-take, get_elem?-drop, get_elem?-append_left, get_elem?-append_right,
}
use usbscope.Capture.Event.{overwrite}

module _ (xs : List ℕ) (off : ℕ) (bs : List ℕ) where
  abbrev front : List ℕ
  front = take off (xs ++ replicate (off - length xs) 0)

  length-front : length front ≡ off
  length-front = omega (
    arith,
    length-take off (xs ++ replicate (off - length xs) 0),
    length-append xs (replicate (off - length xs) 0),
    length-replicate {A = ℕ} (off - length xs) 0,
  )

  -- Behind the offset.
  get_elem?-behind :
      (x : ℕ)
      → off ≤ x
      → get_elem? (overwrite xs off bs) x ≡ get_elem? (bs ++ drop (off + length bs) xs) (x - off)
  get_elem?-behind x h =
      let e : x ≡ length front + (x - off) = omega (arith, length-front) in
      ap (get_elem? (overwrite xs off bs)) e
      ∙ get_elem?-append_right front (bs ++ drop (off + length bs) xs) (x - off)

  -- The places that are written have the bytes that were written.
  pub overwrite-inside :
      (x : ℕ)
      → off ≤ x
      → x < off + length bs
      → get_elem? (overwrite xs off bs) x ≡ get_elem? bs (x - off)
  overwrite-inside x h k =
      get_elem?-behind x h
      ∙ get_elem?-append_left bs (drop (off + length bs) xs) (x - off) (omega arith)

  pub overwrite-left :
      (x : ℕ) → x < off → x < length xs → get_elem? (overwrite xs off bs) x ≡ get_elem? xs x
  overwrite-left x h k =
      get_elem?-append_left front (bs ++ drop (off + length bs) xs) x (omega (arith, length-front))
      ∙ get_elem?-take off x (xs ++ replicate (off - length xs) 0) h
      ∙ get_elem?-append_left xs (replicate (off - length xs) 0) x k

  pub overwrite-right :
      (x : ℕ) → off + length bs ≤ x → get_elem? (overwrite xs off bs) x ≡ get_elem? xs x
  overwrite-right x h =
      let e : x - off ≡ length bs + (x - off - length bs) = omega arith in
      let e' : off + length bs + (x - off - length bs) ≡ x = omega arith in
      get_elem?-behind x (omega arith)
      ∙ ap (get_elem? (bs ++ drop (off + length bs) xs)) e
      ∙ get_elem?-append_right bs (drop (off + length bs) xs) (x - off - length bs)
      ∙ get_elem?-drop (off + length bs) (x - off - length bs) xs
      ∙ ap (get_elem? xs) e'

drop-all : (n : ℕ) (xs : List ℕ) → length xs ≤ n → drop n xs ≡ []
drop-all zero [] h = refl
drop-all zero (x ∷ xs) h = absurd (omega (arith, h))
drop-all (suc n) [] h = refl
drop-all (suc n) (x ∷ xs) h = drop-all n xs (omega (arith, h))

pub overwrite_end : (xs ys : List ℕ) → overwrite xs (length xs) ys ≡ xs ++ ys
overwrite_end xs ys =
    let none_missing : length xs - length xs ≡ 0 = omega arith in
    let front : take (length xs) (xs ++ replicate (length xs - length xs) 0) ≡ xs =
      ap (λ n. take (length xs) (xs ++ replicate n 0)) none_missing
      ∙ ap (take (length xs)) (append-nil xs)
      ∙ take-all (length xs) xs (omega arith) in
    let back : ys ++ drop (length xs + length ys) xs ≡ ys =
      ap (λ zs. ys ++ zs) (drop-all (length xs + length ys) xs (omega arith)) ∙ append-nil ys in
    rw (front, back) refl
