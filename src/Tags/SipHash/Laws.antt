-- ===== src/Tags/SipHash/Laws.antt =====
-- SipHash of core/tag_allocator.h against the definition of the SipHash paper.
use mathlib.Core.List.{append_assoc}
use oreo_kernel.Prelude.{
  ℕ, zero, suc, ◌+◌, ◌-◌, ◌*◌, ◌/◌, ◌%◌, ◌^◌, ◌≤◌, ◌≡◌, refl, sym, ap, ap₂, ◌∙◌, List, [], ◌∷◌,
  ◌++◌, length, take, drop, arith, length-append, take-length,
}
use oreo_kernel.Identity.{u64}
use oreo_kernel.Tags.SipHash.{
  little_endian, read_u64_le, Words, compress, read_blocks, or_tail, initial, finalize, siphash_2_4,
  sip_round, rotl64,
}
use oreo_kernel.Tags.SipHash.Bits.{pow-byte}
use oreo_kernel.Tags.SipHash.Paper.{
  round_of, rounds, number, replicate, padded, compressed, start, finished, siphash,
}
use oreo_kernel.Tags.SipHash.Tail.{AreBytes, or_tail-eq}

-- The words of a message, each compressed as the code does it.
unfoldable compress_words : ℕ → Words → List ℕ → Words
unfolding compress read_u64_le
compress_words zero s p = s
compress_words (suc n) s p = compress_words n (compress s (read_u64_le p)) (drop 8 p)

take-past : (n : ℕ) (p e : List ℕ) → n ≤ length p → take n (p ++ e) ≡ take n p
take-past zero p e h = refl
take-past (suc n) [] e h = absurd (omega arith)
take-past (suc n) (b ∷ bs) e h = ap (λ x. b ∷ x) (take-past n bs e (omega arith))

drop-past : (n : ℕ) (p e : List ℕ) → n ≤ length p → drop n (p ++ e) ≡ drop n p ++ e
drop-past zero p e h = refl
drop-past (suc n) [] e h = absurd (omega arith)
drop-past (suc n) (b ∷ bs) e h = drop-past n bs e (omega arith)

length-drop : (n : ℕ) (p : List ℕ) → length (drop n p) ≡ length p - n
length-drop zero p = omega arith
length-drop (suc n) [] = omega arith
length-drop (suc n) (b ∷ bs) = length-drop n bs ∙ omega arith

-- A message of which n words are read, with what is put behind it.
compress_words-append :
    (n : ℕ) (s : Words) (p e : List ℕ)
    → 8 * n ≤ length p
    → compress_words (suc n) s (p ++ e)
      ≡ compress (read_blocks n s p).0 (read_u64_le ((read_blocks n s p).1 ++ e))
unfolding compress_words read_blocks
compress_words-append zero s p e h = refl
compress_words-append (suc n) s p e h =
    let enough : 8 ≤ length p = omega arith in
    ap₂ (λ w q. compress_words (suc n) (compress s (little_endian w)) q) (take-past 8 p e enough)
      (drop-past 8 p e enough)
    ∙ compress_words-append n (compress s (read_u64_le p)) (drop 8 p) e
        (omega (arith, length-drop 8 p))

length-read_blocks :
    (n : ℕ) (s : Words) (p : List ℕ) → length (read_blocks n s p).1 ≡ length p - 8 * n
unfolding read_blocks
length-read_blocks zero s p = omega arith
length-read_blocks (suc n) s p =
    length-read_blocks n (compress s (read_u64_le p)) (drop 8 p) ∙ omega (arith, length-drop 8 p)

AreBytes-drop : (n : ℕ) (p : List ℕ) → AreBytes p → AreBytes (drop n p)
unfolding AreBytes
AreBytes-drop zero p h = h
AreBytes-drop (suc n) [] h = h
AreBytes-drop (suc n) (b ∷ bs) h = AreBytes-drop n bs h.1

AreBytes-read_blocks :
    (n : ℕ) (s : Words) (p : List ℕ) → AreBytes p → AreBytes (read_blocks n s p).1
unfolding read_blocks
AreBytes-read_blocks zero s p h = h
AreBytes-read_blocks (suc n) s p h =
    AreBytes-read_blocks n (compress s (read_u64_le p)) (drop 8 p) (AreBytes-drop 8 p h)

little_endian-append :
    (xs ys : List ℕ)
    → little_endian (xs ++ ys) ≡ little_endian xs + little_endian ys * 2 ^ (8 * length xs)
unfolding little_endian
little_endian-append [] ys = omega arith
little_endian-append (x ∷ xs) ys =
    ap (λ n. x + 256 * n) (little_endian-append xs ys)
    ∙ ground (arith, ap (λ n. little_endian ys * n) (pow-byte (length xs)))

length-replicate : (n b : ℕ) → length (replicate n b) ≡ n
unfolding replicate
length-replicate zero b = refl
length-replicate (suc n) b = ap suc (length-replicate n b)

little_endian-replicate : (n : ℕ) → little_endian (replicate n 0) ≡ 0
unfolding little_endian replicate
little_endian-replicate zero = refl
little_endian-replicate (suc n) = omega (arith, little_endian-replicate n)

pow-split : (j r : ℕ) → j + r ≡ 7 → 2 ^ 56 ≡ 2 ^ (8 * j) * 2 ^ (8 * r)
pow-split zero r h = let seven : 7 ≡ r = omega (arith, h) in ap (λ n. 1 * 2 ^ (8 * n)) seven
pow-split (suc j) r h =
    pow-split j (suc r) (omega (arith, h))
    ∙ (ap (λ n. 2 ^ (8 * j) * n) (pow-byte r)
        ∙ (omega arith ∙ ap (λ n. n * 2 ^ (8 * r)) (sym (pow-byte j))))

-- The bytes that are left, null bytes up to the seventh, and a byte for the length.
read_u64_le-padding :
    (t : List ℕ) (last : ℕ)
    → length t ≤ 7
    → read_u64_le (t ++ (replicate (7 - length t) 0 ++ (last ∷ [])))
      ≡ last * 2 ^ 56 + little_endian t
unfolding little_endian read_u64_le
read_u64_le-padding t last h =
    let u = t ++ replicate (7 - length t) 0 in
    let seven : length u ≡ 7 =
      length-append t (replicate (7 - length t) 0)
      ∙ omega (arith, length-replicate (7 - length t) 0) in
    let all : length (u ++ (last ∷ [])) ≡ 8 = length-append u (last ∷ []) ∙ omega (arith, seven) in
    let front : little_endian u ≡ little_endian t =
      little_endian-append t (replicate (7 - length t) 0)
      ∙ rw (little_endian-replicate (7 - length t)) (omega arith) in
    ap (λ x. little_endian (take 8 x))
      (sym (append_assoc t (replicate (7 - length t) 0) (last ∷ [])))
    ∙ (ap (λ n. little_endian (take n (u ++ (last ∷ [])))) (sym all)
        ∙ (ap little_endian (take-length (u ++ (last ∷ [])))
            ∙ (little_endian-append u (last ∷ [])
                ∙ (ap₂ (λ a n. a + (last + 256 * 0) * 2 ^ (8 * n)) front seven ∙ omega arith))))

shifted-length : (n : ℕ) → n % 256 * 2 ^ 56 ≡ n * 2 ^ 56 % u64
shifted-length n = omega arith

last_word :
    (t : List ℕ) (n : ℕ)
    → AreBytes t
    → length t ≤ 7
    → read_u64_le (t ++ (replicate (7 - length t) 0 ++ (n % 256 ∷ [])))
      ≡ or_tail (length t) t (n * 2 ^ 56 % u64)
last_word t n h small =
    let r = length t in
    let c = 2 ^ (8 * (7 - r)) in
    let top : n * 2 ^ 56 % u64 ≡ n % 256 * c * 2 ^ (8 * r) =
      sym (shifted-length n)
      ∙ (ap (λ x. n % 256 * x) (pow-split (7 - r) r (omega arith)) ∙ omega arith) in
    read_u64_le-padding t (n % 256) small
    ∙ (ap (λ x. x + little_endian t) (shifted-length n ∙ top)
        ∙ (ap (λ x. n % 256 * c * 2 ^ (8 * r) + little_endian x) (sym (take-length t))
            ∙ sym (ap (or_tail r t) top ∙ or_tail-eq r t (n % 256 * c) h)))

sip_round-eq-round_of : (s : Words) → sip_round s ≡ round_of s
unfolding sip_round round_of rotl64
sip_round-eq-round_of s = refl

little_endian-eq-number : (p : List ℕ) → little_endian p ≡ number p
unfolding little_endian number
little_endian-eq-number [] = refl
little_endian-eq-number (b ∷ bs) = omega (arith, little_endian-eq-number bs)

compress_words-eq-compressed :
    (n : ℕ) (s : Words) (p : List ℕ) → compress_words n s p ≡ compressed n s p
unfolding compress_words compressed rounds compress sip_round round_of rotl64 read_u64_le
compress_words-eq-compressed zero s p = refl
compress_words-eq-compressed (suc n) s p =
    ap (λ m. compress_words n (compress s m) (drop 8 p)) (little_endian-eq-number (take 8 p))
    ∙ compress_words-eq-compressed n (compress s (number (take 8 p))) (drop 8 p)

finalize-eq-finished : (s : Words) → finalize s ≡ finished s
unfolding finalize finished rounds sip_round round_of rotl64
finalize-eq-finished s = refl

initial-eq-start : (k0 k1 : ℕ) → initial k0 k1 ≡ start k0 k1
unfolding initial start
initial-eq-start k0 k1 = refl

-- The loop over the whole words and the switch over the bytes that are left.
siphash_2_4-words :
    (input : List ℕ) (k0 k1 : ℕ)
    → AreBytes input
    → siphash_2_4 input k0 k1
      ≡ finalize (compress_words (suc (length input / 8)) (initial k0 k1) (padded input))
unfolding siphash_2_4 padded
siphash_2_4-words input k0 k1 h =
    let n = length input / 8 in
    let s = initial k0 k1 in
    let t = (read_blocks n s input).1 in
    let left : length t ≡ length input % 8 = length-read_blocks n s input ∙ omega arith in
    let word =
      last_word t (length input) (AreBytes-read_blocks n s input h) (omega (arith, left)) in
    sym (
      ap finalize (
        compress_words-append n s input
          (replicate (7 - length input % 8) 0 ++ (length input % 256 ∷ [])) (omega arith)
        ∙ ap (compress (read_blocks n s input).0) (
            ap (λ r. read_u64_le (t ++ (replicate (7 - r) 0 ++ (length input % 256 ∷ []))))
              (sym left)
            ∙ (word ∙ ap (λ r. or_tail r t (length input * 2 ^ 56 % u64)) left))))

-- Whatever the bytes of the input and the key are, the hash is SipHash-2-4 as its paper defines it:
-- from the paper's constants on, every word of the input, padded with null bytes and its length modulo
-- 256 as the last byte, is compressed with two rounds, and four rounds follow. The rotation of a word
-- is an or of two shifts, as in the code.
pub siphash_2_4-eq-siphash :
    (input : List ℕ) (k0 k1 : ℕ) → AreBytes input → siphash_2_4 input k0 k1 ≡ siphash input k0 k1
unfolding siphash
siphash_2_4-eq-siphash input k0 k1 h =
    let n = suc (length input / 8) in
    siphash_2_4-words input k0 k1 h
    ∙ (ap (λ s. finalize (compress_words n s (padded input))) (initial-eq-start k0 k1)
        ∙ (ap finalize (compress_words-eq-compressed n (start k0 k1) (padded input))
            ∙ finalize-eq-finished (compressed n (start k0 k1) (padded input))))
