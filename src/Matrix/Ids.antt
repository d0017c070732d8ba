-- ===== src/Matrix/Ids.antt =====
-- internal/matrix/helpers.go, `safeHashClass`: the ids of messages, over FNV-1a of Go's library.
use Prim.Native.Char.{code, char}
use Prim.Native.Nat.{bit_xor, zero, suc}
use Prim.Native.String.append
use arko.Base.{
  ℕ, ◌+◌, ◌*◌, ◌/◌, ◌%◌, ◌^◌, String, ◌+s◌, List, [], ◌∷◌, ◌++◌, ltb, if◌then◌else◌, ◌≡◌, refl, ap,
  ◌∙◌, false, has_prefix,
}

-- The bytes of a text.
unfoldable pub utf8 : ℕ → List ℕ
utf8 c =
    if ltb c 0x80
    then c ∷ []
    else if ltb c 0x800
    then (0xc0 + c / 64) ∷ (0x80 + c % 64) ∷ []
    else if ltb c 0x10000
    then (0xe0 + c / 4096) ∷ (0x80 + c / 64 % 64) ∷ (0x80 + c % 64) ∷ []
    else (0xf0 + c / 262144) ∷ (0x80 + c / 4096 % 64) ∷ (0x80 + c / 64 % 64) ∷ (0x80 + c % 64) ∷ []

unfoldable pub bytes : String → List ℕ
unfolding utf8
bytes String.[] = []
bytes (String.◌∷◌ c s) = utf8 (code c) ++ bytes s

-- fnv.New32a
unfoldable pub fnv32a : ℕ → List ℕ → ℕ
fnv32a h [] = h
fnv32a h (b ∷ bs) = fnv32a ((bit_xor h b * 16777619) % 2 ^ 32) bs

-- fnv.New64a
unfoldable pub fnv64a : ℕ → List ℕ → ℕ
fnv64a h [] = h
fnv64a h (b ∷ bs) = fnv64a ((bit_xor h b * 1099511628211) % 2 ^ 64) bs

-- A digit of "%x".
unfoldable pub hex_digit : ℕ → String
hex_digit d =
    if ltb d 8
    then (if ltb d 4
        then (if ltb d 2 then (if ltb d 1 then "0" else "1") else if ltb d 3 then "2" else "3")
        else if ltb d 6
        then (if ltb d 5 then "4" else "5")
        else if ltb d 7
        then "6"
        else "7")
    else if ltb d 12
    then (if ltb d 10 then (if ltb d 9 then "8" else "9") else if ltb d 11 then "a" else "b")
    else if ltb d 14
    then (if ltb d 13 then "c" else "d")
    else if ltb d 15
    then "e"
    else "f"

-- "%x", without leading zeros; sixteen digits are enough for 64 bits.
unfoldable pub hex_from : ℕ → ℕ → String
unfolding hex_digit
hex_from zero n = ""
hex_from (suc f) n =
    let rest = hex_from f (n / 16) in if ltb n 16 then hex_digit n else rest +s hex_digit (n % 16)

unfoldable pub hex : ℕ → String
unfolding hex_from
hex n = hex_from 16 n

unfoldable pub safe_hash_class : String → String
unfolding hex fnv32a bytes
safe_hash_class input = "c" +s hex (fnv32a 2166136261 (bytes input))

-- components/utils/hash.go
unfoldable pub hash : String → String
unfolding hex fnv64a bytes
hash s = hex (fnv64a 14695981039346656037 (bytes s))

-- The nonce of a pending message and of a message that is being decrypted, from random bytes in
-- base64. (A random source that fails is not modelled.)
unfoldable pub pending_nonce : String → String
unfolding safe_hash_class
pending_nonce random = "pending-" +s safe_hash_class random

unfoldable pub decrypting_nonce : String → String
unfolding safe_hash_class
decrypting_nonce random = "decrypting-" +s safe_hash_class random

hash_of_a : safe_hash_class "a" ≡ "ce40c292c"
unfolding safe_hash_class
hash_of_a = refl

c_first : (s : String) → "c" +s s ≡ String.◌∷◌ (char 99 tt) s
c_first s = append.cons (char 99 tt) "" s ∙ ap (λ v. String.◌∷◌ (char 99 tt) v) (append.nil s)

-- An id that comes from an event is no nonce.
pub plain-safe_hash_class :
    (input : String)
    → (has_prefix (safe_hash_class input) "pending-" ≡ false)
      × (has_prefix (safe_hash_class input) "decrypting-" ≡ false)
unfolding safe_hash_class has_prefix
plain-safe_hash_class input =
    let e = c_first (hex (fnv32a 2166136261 (bytes input))) in
    (ap (λ v. has_prefix v "pending-") e, ap (λ v. has_prefix v "decrypting-") e)
