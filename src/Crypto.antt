-- ===== src/Crypto.antt =====
-- `EncryptBlowfishECB` and `DecryptBlowfishECB` (internal/service/util/crypto.go). The Blowfish
-- cipher is a third-party package: a parameter, which works on blocks of 8 bytes.
use go_template_aerospike.Prelude.{
  ℕ, zero, suc, ◌*◌, ◌-◌, ◌/◌, ◌%◌, Bytes, not, Option, none, some, [], ◌∷◌, ◌++◌, ◌≡◌, refl, ap,
  arith, length, take, drop, take-append-drop, length-append, length-take, if◌then◌else◌, ◌==◌,
}

pub record Block : Type 0 where
  pub encrypt : Bytes → Bytes
  pub decrypt : Bytes → Bytes

-- `blowfish.NewCipher`, whose error is `none`.
abbrev pub NewCipher : Type 0
NewCipher = Bytes → Option Block

-- What a cipher is documented to do with a block.
pub record IsCipher (new_cipher : NewCipher) : Type 0 where
  pub length-encrypt :
      (key : Bytes) (c : Block) (b : Bytes)
      → new_cipher key ≡ some c
      → length b ≡ 8
      → length (c.encrypt b) ≡ 8
  pub decrypt-encrypt :
      (key : Bytes) (c : Block) (b : Bytes)
      → new_cipher key ≡ some c
      → length b ≡ 8
      → c.decrypt (c.encrypt b) ≡ b

-- The loop over `i := 0; i < len; i += 8`: `blocks` of them are left.
unfoldable pub each_block : (Bytes → Bytes) → ℕ → Bytes → Bytes
each_block f zero bytes = []
each_block f (suc blocks) bytes = f (take 8 bytes) ++ each_block f blocks (drop 8 bytes)

pub data CryptoError : Type 0 where
  bad_key bad_length : CryptoError

pub data Crypted : Type 0 where
  done : Bytes → Crypted
  refused : CryptoError → Crypted

unfoldable pub encrypt_with : Option Block → Bytes → Crypted
encrypt_with none bytes = refused bad_key
encrypt_with (some c) bytes =
    if not (length bytes % 8 == 0)
    then refused bad_length
    else done (each_block c.encrypt (length bytes / 8) bytes)

unfoldable pub encrypt_blowfish_ecb : NewCipher → Bytes → Bytes → Crypted
unfolding encrypt_with
encrypt_blowfish_ecb new_cipher key bytes = encrypt_with (new_cipher key) bytes

unfoldable pub decrypt_with : Option Block → Bytes → Crypted
decrypt_with none bytes = refused bad_key
decrypt_with (some c) bytes =
    if not (length bytes % 8 == 0)
    then refused bad_length
    else done (each_block c.decrypt (length bytes / 8) bytes)

unfoldable pub decrypt_blowfish_ecb : NewCipher → Bytes → Bytes → Crypted
unfolding decrypt_with
decrypt_blowfish_ecb new_cipher key c_data = decrypt_with (new_cipher key) c_data

take-append-exact : (n : ℕ) (a b : Bytes) → length a ≡ n → take n (a ++ b) ≡ a
take-append-exact zero [] b h = refl
take-append-exact zero (x ∷ a) b h = absurd (omega arith)
take-append-exact (suc n) [] b h = absurd (omega arith)
take-append-exact (suc n) (x ∷ a) b h = ap (λ l. x ∷ l) (take-append-exact n a b (omega arith))

drop-append-exact : (n : ℕ) (a b : Bytes) → length a ≡ n → drop n (a ++ b) ≡ b
drop-append-exact zero [] b h = refl
drop-append-exact zero (x ∷ a) b h = absurd (omega arith)
drop-append-exact (suc n) [] b h = absurd (omega arith)
drop-append-exact (suc n) (x ∷ a) b h = drop-append-exact n a b (omega arith)

length-drop : (n : ℕ) (a : Bytes) → length (drop n a) ≡ length a - n
length-drop zero a = omega arith
length-drop (suc n) [] = omega arith
length-drop (suc n) (x ∷ a) = omega (arith, length-drop n a)

module _ (f g : Bytes → Bytes) (f8 : (b : Bytes) → length b ≡ 8 → length (f b) ≡ 8)
    (gf : (b : Bytes) → length b ≡ 8 → g (f b) ≡ b) where
  length-each_block :
      (k : ℕ) (bytes : Bytes) → length bytes ≡ 8 * k → length (each_block f k bytes) ≡ 8 * k
  unfolding each_block
  length-each_block zero bytes h = omega arith
  length-each_block (suc k) bytes h =
      let head8 = f8 (take 8 bytes) (omega (arith, length-take 8 bytes)) in
      let rest = length-each_block k (drop 8 bytes) (omega (arith, length-drop 8 bytes)) in
      omega (arith, head8, rest, length-append (f (take 8 bytes)) (each_block f k (drop 8 bytes)))

  each_block-each_block :
      (k : ℕ) (bytes : Bytes) → length bytes ≡ 8 * k → each_block g k (each_block f k bytes) ≡ bytes
  unfolding each_block
  each_block-each_block zero [] h = refl
  each_block-each_block zero (x ∷ bytes) h = absurd (omega arith)
  each_block-each_block (suc k) bytes h =
      let eight : length (take 8 bytes) ≡ 8 = omega (arith, length-take 8 bytes) in
      let rest = each_block-each_block k (drop 8 bytes) (omega (arith, length-drop 8 bytes)) in
      let front =
        take-append-exact 8 (f (take 8 bytes)) (each_block f k (drop 8 bytes)) (f8 _ eight) in
      let back =
        drop-append-exact 8 (f (take 8 bytes)) (each_block f k (drop 8 bytes)) (f8 _ eight) in
      rw front (rw back (rw rest (rw (gf (take 8 bytes) eight) (take-append-drop 8 bytes))))

-- Under a key that the cipher takes, bytes of a multiple of 8 bytes is encrypted to as many bytes, and
-- decrypting these gives the bytes back.
pub decrypt-encrypt_blowfish_ecb :
    (new_cipher : NewCipher) (key bytes : Bytes) (c : Block)
    → IsCipher new_cipher
    → new_cipher key ≡ some c
    → length bytes % 8 ≡ 0
    → (out : Bytes) × ((encrypt_blowfish_ecb new_cipher key bytes ≡ done out)
        × (length out ≡ length bytes)
        × (decrypt_blowfish_ecb new_cipher key out ≡ done bytes))
unfolding encrypt_blowfish_ecb decrypt_blowfish_ecb
decrypt-encrypt_blowfish_ecb new_cipher key bytes c law e h =
    let k = length bytes / 8 in
    let full : length bytes ≡ 8 * k = omega arith in
    let f8 = λ (b : Bytes). law.length-encrypt key c b e in
    let gf = λ (b : Bytes). law.decrypt-encrypt key c b e in
    let same = length-each_block c.encrypt c.decrypt f8 gf k bytes full in
    let back = each_block-each_block c.encrypt c.decrypt f8 gf k bytes full in
    let out : Bytes = each_block c.encrypt k bytes in
    let fits : length out ≡ length bytes = omega arith in
    let same_blocks : length out / 8 ≡ k = ap (λ n. n / 8) fits in
    let whole : length out % 8 ≡ 0 = omega arith in
    rw e (out, (rw h refl, fits, rw whole (rw same_blocks (ap done back))))
