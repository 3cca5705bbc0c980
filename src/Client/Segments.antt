-- ===== src/Client/Segments.antt =====
-- `ReadExact` depends on the bytes that the socket holds and not on their segments.
use local_pc.Common.{
  inr, subst, ltb→lt, inl, ltb, length-append, Bool-cases, sym, ℕ, zero, suc, ◌-◌, ◌≤◌, ◌<◌, ◌≡◌,
  refl, ap, ◌∙◌, arith, List, [], ◌∷◌, ◌++◌, length, take, drop, All,
}
use local_pc.Wire.Structs.{drop-append_le}
use local_pc.Frame.Round.{concat}
use local_pc.Client.Receive.{Read, got, put_back, behind, read_exact}

-- No segment is empty: the connection is not closed before its end.
abbrev pub IsOpen : List (List ℕ) → Type 0
IsOpen socket = All (λ s. 0 < length s) socket

-- The first `size` bytes of the socket have been read, and the others are left.
pub record HasRead (socket : List (List ℕ)) (size : ℕ) (r : Read) : Type 0 where
  pub rest : List (List ℕ)
  pub result : r ≡ got (take size (concat socket)) rest
  pub left : concat rest ≡ drop size (concat socket)
  pub open_still : IsOpen rest

put_back-concat :
    (xs : List ℕ) (socket : List (List ℕ)) → concat (put_back xs socket) ≡ xs ++ concat socket
unfolding put_back
put_back-concat [] socket = refl
put_back-concat (x ∷ xs) socket = refl

put_back-IsOpen :
    (xs : List ℕ) (socket : List (List ℕ)) → IsOpen socket → IsOpen (put_back xs socket)
unfolding put_back
put_back-IsOpen [] socket h = h
put_back-IsOpen (x ∷ xs) socket h = (omega arith, h)

-- Cutting a list within, and behind, its first part.
pub take_within : (n : ℕ) (xs ys : List ℕ) → n ≤ length xs → take n (xs ++ ys) ≡ take n xs
take_within zero xs ys h = refl
take_within (suc n) [] ys h = absurd (omega arith)
take_within (suc n) (x ∷ xs) ys h = ap (λ t. x ∷ t) (take_within n xs ys (omega arith))

take_behind :
    (n : ℕ) (xs ys : List ℕ) → length xs ≤ n → take n (xs ++ ys) ≡ xs ++ take (n - length xs) ys
take_behind n [] ys h = ap (λ t. take t ys) (omega arith)
take_behind zero (x ∷ xs) ys h = absurd (omega arith)
take_behind (suc n) (x ∷ xs) ys h =
    ap (λ t. x ∷ t) (take_behind n xs ys (omega arith) ∙ ap (λ t. xs ++ take t ys) (omega arith))

drop_behind : (n : ℕ) (xs ys : List ℕ) → length xs ≤ n → drop n (xs ++ ys) ≡ drop (n - length xs) ys
drop_behind n [] ys h = ap (λ t. drop t ys) (omega arith)
drop_behind zero (x ∷ xs) ys h = absurd (omega arith)
drop_behind (suc n) (x ∷ xs) ys h =
    drop_behind n xs ys (omega arith) ∙ ap (λ t. drop t ys) (omega arith)

read_nothing : (socket : List (List ℕ)) → IsOpen socket → HasRead socket 0 (read_exact socket 0)
unfolding read_exact
read_nothing [] h = record { rest = []; result = refl; left = refl; open_still = tt }
read_nothing (s ∷ socket) h = record {
  rest = s ∷ socket;
  result = refl;
  left = refl;
  open_still = h;
}

read_short :
    (s : List ℕ) (socket : List (List ℕ)) (size : ℕ)
    → 0 < length s
    → length s < size
    → read_exact (s ∷ socket) size ≡ behind s (read_exact socket (size - length s))
unfolding read_exact
read_short s socket size h l = ground arith

read_long :
    (s : List ℕ) (socket : List (List ℕ)) (size : ℕ)
    → 0 < size
    → size ≤ length s
    → read_exact (s ∷ socket) size ≡ got (take size s) (put_back (drop size s) socket)
unfolding read_exact
read_long s socket size h l = ground arith

-- A segment that is read as a whole, in front of what is read behind it.
behind-HasRead :
    (s : List ℕ) (socket : List (List ℕ)) (size : ℕ) (r : Read)
    → length s ≤ size
    → HasRead socket (size - length s) r
    → HasRead (s ∷ socket) size (behind s r)
unfolding behind
behind-HasRead s socket size r l h = record {
  rest = h.rest;
  result =
      ap (behind s) h.result ∙ ap (λ t. got t h.rest) (sym (take_behind size s (concat socket) l));
  left = h.left ∙ sym (drop_behind size s (concat socket) l);
  open_still = h.open_still;
}

put_back-HasRead :
    (s : List ℕ) (socket : List (List ℕ)) (size : ℕ)
    → size ≤ length s
    → IsOpen socket
    → HasRead (s ∷ socket) size (got (take size s) (put_back (drop size s) socket))
put_back-HasRead s socket size l h = record {
  rest = put_back (drop size s) socket;
  result =
      ap (λ t. got t (put_back (drop size s) socket)) (sym (take_within size s (concat socket) l));
  left = put_back-concat (drop size s) socket ∙ sym (drop-append_le size s (concat socket) l);
  open_still = put_back-IsOpen (drop size s) socket h;
}

-- However the bytes of an open connection are cut into segments, `ReadExact` reads the first `size` of
-- them, if there are so many, and leaves the others.
pub read_exact-HasRead :
    (socket : List (List ℕ)) (size : ℕ)
    → IsOpen socket
    → size ≤ length (concat socket)
    → HasRead socket size (read_exact socket size)
read_exact-HasRead socket zero h l = read_nothing socket h
read_exact-HasRead [] (suc size) h l = absurd (omega arith)
read_exact-HasRead (s ∷ socket) (suc size) (hs, h) l =
    elim (Bool-cases (ltb (length s) (suc size))) [
      | inl short ↦
          let less = ltb→lt _ _ short in
          subst (λ t. HasRead (s ∷ socket) (suc size) t)
            (sym (read_short s socket (suc size) hs less))
            (behind-HasRead s socket (suc size) _ (omega arith) (
              read_exact-HasRead socket (suc size - length s) h
                (omega (arith, length-append s (concat socket)))))
      | inr long ↦
          let enough : suc size ≤ length s = ground arith in
          subst (λ t. HasRead (s ∷ socket) (suc size) t)
            (sym (read_long s socket (suc size) (omega arith) enough))
            (put_back-HasRead s socket (suc size) enough h)
    ]

-- An open connection without bytes is at its end.
pub no_bytes : (socket : List (List ℕ)) → IsOpen socket → concat socket ≡ [] → socket ≡ []
no_bytes [] h e = refl
no_bytes (s ∷ socket) (hs, h) e =
    absurd (omega (arith, length-append s (concat socket), ap (λ (t : List ℕ). length t) e))
