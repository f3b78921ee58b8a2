-- ===== src/Tests/Libraries.antt =====
-- Small libraries for the code of src/: a cipher that adds the first byte of the key, and a packer that adds
-- a mark.
use cryptar.Prelude.{
  ℕ, zero, suc, ◌+◌, ◌-◌, ◌≤◌, ◌<◌, ◌≡◌, refl, ap, ap₂, sym, ◌∙◌, Bool, true, false, Option, none,
  some, List, [], ◌∷◌, ◌++◌, length, take, drop, ltb, if◌then◌else◌, arith, lt→ltb, le→not_ltb,
  take-append, drop-append,
}
use cryptar.Rewrite.System.{System, Os}
use cryptar.Rewrite.Crypt.{CryptoLib}
use cryptar.Rewrite.Compress.{BzLib, BzResult, bz_ok, bz_outbuff_full, bz_unexpected_eof}
use cryptar.Rewrite.Config.{Archive}

abbrev pub repeat : ℕ → ℕ → List ℕ
repeat zero b = []
repeat (suc n) b = b ∷ repeat n b

pub length-repeat : (n b : ℕ) → length (repeat n b) ≡ n
length-repeat zero b = refl
length-repeat (suc n) b = omega (arith, length-repeat n b)

abbrev pub shifted : ℕ → List ℕ → List ℕ
shifted k [] = []
shifted k (b ∷ bs) = (b + k) ∷ shifted k bs

abbrev pub shifted_back : ℕ → List ℕ → List ℕ
shifted_back k [] = []
shifted_back k (b ∷ bs) = (b - k) ∷ shifted_back k bs

shifted_back-shifted : (k : ℕ) (bs : List ℕ) → shifted_back k (shifted k bs) ≡ bs
shifted_back-shifted k [] = refl
shifted_back-shifted k (b ∷ bs) = ap₂ ◌∷◌ (omega arith) (shifted_back-shifted k bs)

abbrev pub first_byte : List ℕ → ℕ
first_byte [] = 0
first_byte (b ∷ bs) = b

or_empty : Option (List ℕ) → List ℕ
or_empty none = []
or_empty (some bs) = bs

pub deciphered :
    (k : ℕ) (text sealed : List ℕ)
    → Path (Option (List ℕ)) (some (shifted k text)) (some sealed)
    → Path (Option (List ℕ)) (some (shifted_back k sealed)) (some text)
unfolding or_empty
deciphered k text sealed e =
    ap (λ s. some (shifted_back k s)) (sym (ap or_empty e)) ∙ ap some (shifted_back-shifted k text)

abbrev pub crypto : CryptoLib
crypto = record {
  sha256 = λ message. repeat 32 (first_byte message);
  base64 = λ bytes. bytes ++ 10 ∷ [];
  cipher = λ key iv text. some (shifted (first_byte key) text);
  decipher = λ key iv text. some (shifted_back (first_byte key) text);
  random = λ call size. repeat size call;
  length-sha256 = λ message. length-repeat 32 (first_byte message);
  length-random = λ call size. length-repeat size call;
  decipher-cipher = λ key iv text sealed k i e. deciphered (first_byte key) text sealed e;
}

abbrev pub pack : ℕ → List ℕ → BzResult
pack room text = if ltb (length text) room then bz_ok (66 ∷ text) else bz_outbuff_full

abbrev pub unpack : ℕ → List ℕ → BzResult
unpack space [] = bz_unexpected_eof
unpack space (b ∷ text) = if ltb space (length text) then bz_outbuff_full else bz_ok text

bytes_of : BzResult → List ℕ
bytes_of (bz_ok bs) = bs
bytes_of _ = []

packed_as :
    (b : Bool) (text packed : List ℕ)
    → (if b then bz_ok (66 ∷ text) else bz_outbuff_full) ≡ bz_ok packed
    → (b ≡ true) × (66 ∷ text ≡ packed)
unfolding bytes_of
packed_as true text packed e = (refl, ap bytes_of e)
packed_as false text packed e = cc

pub pack_some :
    (room : ℕ) (text packed : List ℕ) → pack room text ≡ bz_ok packed → 0 < length packed
pack_some room text packed e =
    rw (sym (packed_as (ltb (length text) room) text packed e).1) (omega arith)

pub pack_fits :
    (room : ℕ) (text packed : List ℕ) → pack room text ≡ bz_ok packed → length packed ≤ room
pack_fits room text packed e =
    let (t, same) = packed_as (ltb (length text) room) text packed e in rw (sym same) (grind arith)

pub unpack-pack :
    (room space : ℕ) (text packed : List ℕ)
    → pack room text ≡ bz_ok packed
    → length text ≤ space
    → unpack space packed ≡ bz_ok text
unpack-pack room space text packed e h =
    rw (sym (packed_as (ltb (length text) room) text packed e).1)
      (rw (le→not_ltb space (length text) h) refl)

pub unpack_full :
    (room space : ℕ) (text packed : List ℕ)
    → pack room text ≡ bz_ok packed
    → space < length text
    → unpack space packed ≡ bz_outbuff_full
unpack_full room space text packed e h =
    rw (sym (packed_as (ltb (length text) room) text packed e).1)
      (rw (lt→ltb space (length text) h) refl)

abbrev pub bzip : BzLib
bzip = record {
  compress_buffer = pack;
  decompress_buffer = unpack;
  packed_some = pack_some;
  packed_fits = pack_fits;
  decompress-compress = unpack-pack;
  decompress_full = unpack_full;
}

-- Every file can be written and every directory made.
abbrev pub disk : Os
disk = record { writable = λ path. true; make_dir = λ path. true }

abbrev pub no_files : System
no_files = record { draws = 0; files = λ path. none }

abbrev pub join : List ℕ → List ℕ → List ℕ
join root_id crypto_key = length root_id ∷ root_id ++ crypto_key

abbrev pub split : List ℕ → Option (List ℕ × List ℕ)
split [] = none
split (n ∷ bytes) = some (take n bytes, drop n bytes)

pub split-join :
    (root_id crypto_key : List ℕ) → split (join root_id crypto_key) ≡ some (root_id, crypto_key)
split-join root_id crypto_key =
    rw
      (
        take-append (length root_id) root_id crypto_key refl,
        drop-append (length root_id) root_id crypto_key refl,
      )
      refl

abbrev pub text_archive : Archive
text_archive = record { to_text = join; of_text = split; of_text-to_text = split-join }
