-- ===== src/Frame/Corruption.antt =====
-- A frame whose payload is damaged in one byte is rejected.
use local_pc.Common.{
  false, true, All-drop, ℕ, ◌<◌, ◌≤◌, ◌≡◌, ◌≢◌, sym, ap, ◌∙◌, arith, some, List, ◌∷◌, ◌++◌, length,
  drop, All, length-append,
}
use local_pc.Wire.{IsByte}
use local_pc.Frame.Header.{EgoFrameHeader, decode_header}
use local_pc.Frame.Layout.{decode_header-append}
use local_pc.Frame.Io.{validate_contract_frame, payload_crc_mismatch, payload_matches}
use local_pc.Frame.Parse.{IsFrame-IsShaped, IsShaped, IsFrame}
use local_pc.Wire.Structs.{drop-append_le}

-- What the checksum is documented to do: no two byte strings that differ in exactly one byte have
-- the same checksum.
abbrev pub DetectsOneByte : (List ℕ → ℕ) → Type 0
DetectsOneByte crc32 =
    (front back : List ℕ) (b c : ℕ)
    → All IsByte front
    → All IsByte back
    → b < 256
    → c < 256
    → b ≢ c
    → crc32 (front ++ b ∷ back) ≢ crc32 (front ++ c ∷ back)

matches_of_frame :
    (crc32 : List ℕ → ℕ) (max : ℕ) (f : List ℕ)
    → IsFrame crc32 max f
    → payload_matches crc32 (decode_header f) f ≡ true
unfolding validate_contract_frame
matches_of_frame crc32 max f h = ground arith

rejected :
    (crc32 : List ℕ → ℕ) (max : ℕ) (f : List ℕ)
    → IsShaped max f
    → payload_matches crc32 (decode_header f) f ≡ false
    → validate_contract_frame crc32 f max ≡ some payload_crc_mismatch
unfolding validate_contract_frame
rejected crc32 max f s h = ground (arith, s.long, s.magic, s.size, s.bounded, s.exact)

-- Only the payload's bytes and its announced size and checksum are looked at.
matches_fails :
    (crc32 : List ℕ → ℕ) (header : EgoFrameHeader) (f g : List ℕ)
    → 0 < header.payload_size
    → payload_matches crc32 header f ≡ true
    → crc32 (drop 72 f) ≢ crc32 (drop 72 g)
    → payload_matches crc32 header g ≡ false
unfolding payload_matches
matches_fails crc32 header f g h m ne = ground arith

-- The shape does not depend on the bytes behind the header.
same_shape :
    (max : ℕ) (f g : List ℕ)
    → decode_header g ≡ decode_header f
    → length g ≡ length f
    → IsShaped max f
    → IsShaped max g
same_shape max f g e l s = record {
  long = omega (arith, s.long);
  magic = ap (λ (t : EgoFrameHeader). t.magic) e ∙ s.magic;
  size = ap (λ (t : EgoFrameHeader). t.header_size) e ∙ s.size;
  bounded = omega (arith, s.bounded, ap (λ (t : EgoFrameHeader). t.payload_size) e);
  exact = omega (arith, s.exact, ap (λ (t : EgoFrameHeader). t.payload_size) e);
}

module _ (crc32 : List ℕ → ℕ) (max : ℕ) (front back : List ℕ) (b c : ℕ) where
  payload_of : (d : ℕ) → 72 ≤ length front → drop 72 (front ++ d ∷ back) ≡ drop 72 front ++ d ∷ back
  payload_of d h = drop-append_le 72 front (d ∷ back) h

  same_header :
      72 ≤ length front → decode_header (front ++ c ∷ back) ≡ decode_header (front ++ b ∷ back)
  same_header h =
      decode_header-append front (c ∷ back) h ∙ sym (decode_header-append front (b ∷ back) h)

  -- With a checksum that detects the change of one byte, a frame in which one byte behind the
  -- header is replaced by another is rejected for its payload checksum.
  pub validate_damaged :
      DetectsOneByte crc32
      → 72 ≤ length front
      → All IsByte front
      → All IsByte back
      → b < 256
      → c < 256
      → b ≢ c
      → IsFrame crc32 max (front ++ b ∷ back)
      → validate_contract_frame crc32 (front ++ c ∷ back) max ≡ some payload_crc_mismatch
  validate_damaged detects h hf hk hb hc ne ok =
      let shaped = IsFrame-IsShaped crc32 max (front ++ b ∷ back) ok in
      rejected crc32 max (front ++ c ∷ back)
        (same_shape max _ _ (same_header h)
          (omega (arith, length-append front (b ∷ back), length-append front (c ∷ back))) shaped)
        (ap (λ t. payload_matches crc32 t (front ++ c ∷ back)) (same_header h)
          ∙ matches_fails crc32 (decode_header (front ++ b ∷ back)) (front ++ b ∷ back)
              (front ++ c ∷ back) (omega (arith, shaped.exact, length-append front (b ∷ back)))
              (matches_of_frame crc32 max (front ++ b ∷ back) ok)
              (λ e.
                detects (drop 72 front) back b c (All-drop IsByte 72 front hf) hk hb hc ne
                  (sym (ap crc32 (payload_of b h)) ∙ e ∙ ap crc32 (payload_of c h))))
