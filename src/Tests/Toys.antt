-- ===== src/Tests/Toys.antt =====
-- Toy instances of the interfaces to other packages, which show that their laws can be met.
use file_share_app.Base.{
  ℕ, ◌+◌, ◌*◌, ◌/◌, ◌%◌, ◌<◌, ◌≡◌, refl, ap, ◌∙◌, List, [], ◌∷◌, ◌++◌, length, take, drop, take_all,
  drop_all, append-nil, append_assoc, Option, none, some, Utf16, All, arith,
}
use file_share_app.Transfer.Crypto.{Crypto}
use file_share_app.Transfer.Sink.FileSystem.{FileStream}

abbrev sum : List ℕ → ℕ
sum [] = 0
sum (b ∷ bs) = b + sum bs

-- A digest of one byte.
abbrev toy_digest : List ℕ → List ℕ
toy_digest bytes = (sum bytes % 256) ∷ []

-- Two digits for a byte, each as a number.
abbrev toy_hex : List ℕ → Utf16
toy_hex [] = []
toy_hex (b ∷ bs) = (b / 16) ∷ (b % 16) ∷ toy_hex bs

abbrev prepend : ℕ → Option (List ℕ) → Option (List ℕ)
prepend b none = none
prepend b (some bs) = some (b ∷ bs)

abbrev toy_unhex : Utf16 → Option (List ℕ)
toy_unhex [] = some []
toy_unhex (u ∷ []) = none
toy_unhex (u ∷ v ∷ us) = prepend (u * 16 + v) (toy_unhex us)

pub toy_round_trip : (b : List ℕ) → All (λ x. x < 256) b → toy_unhex (toy_hex b) ≡ some b
toy_round_trip [] h = refl
toy_round_trip (b ∷ bs) (h, hs) =
    ap (prepend (b / 16 * 16 + b % 16)) (toy_round_trip bs hs)
    ∙ ap (λ x. some (x ∷ bs)) {x = b / 16 * 16 + b % 16} {y = b} (omega arith)

pub toy_length : (b : List ℕ) → length (toy_hex b) ≡ 2 * length b
toy_length [] = refl
toy_length (b ∷ bs) = omega (arith, toy_length bs)

-- A cipher that puts the key in front.
abbrev toy_decrypt : ℕ → List ℕ → List ℕ → Option (List ℕ)
toy_decrypt key iv [] = none
toy_decrypt key iv (b ∷ bs) = some bs

abbrev pub toy_crypto : Crypto
toy_crypto = record {
  Hasher = List ℕ;
  create = [];
  update = ◌++◌;
  digest = toy_digest;
  update-nil = append-nil;
  update-update = append_assoc;
  digest_bytes = λ h. (omega arith, tt);
  bytes_to_hex = toy_hex;
  hex_to_bytes = toy_unhex;
  length-bytes_to_hex = toy_length;
  hex_round_trip = toy_round_trip;
  Key = ℕ;
  encrypt = λ key iv bytes. key ∷ bytes;
  decrypt = toy_decrypt;
  decrypt-encrypt = λ key iv bytes. refl;
}

abbrev toy_write : List ℕ → ℕ → List ℕ → Option (List ℕ)
toy_write file position chunk =
    some (take position file ++ (chunk ++ drop (position + length chunk) file))

pub toy_write-end :
    (file chunk : List ℕ)
    → (t : List ℕ) × (toy_write file (length file) chunk ≡ some t) × (t ≡ file ++ chunk)
toy_write-end file chunk = (
  _,
  refl,
  ap (λ s. s ++ (chunk ++ drop (length file + length chunk) file))
        (take_all (length file) file (omega arith))
      ∙ ap (λ s. file ++ (chunk ++ s)) (drop_all (length file + length chunk) file (omega arith))
      ∙ ap (◌++◌ file) (append-nil chunk),
)

abbrev pub toy_stream : FileStream
toy_stream = record {
  Stream = List ℕ;
  write_at = toy_write;
  bytes = λ file. file;
  close = some;
  abort_stream = λ file. some [];
  write_at-end = toy_write-end;
}
