-- ===== src/Stun/Hmac.antt =====
-- stun/stunhmac.c: the inputs of HMAC-SHA1 and of MD5. The two functions themselves (stun/sha1.c,
-- stun/md5.c, copies of other projects' code) are parameters.
use libxice.Base.{ℕ, ◌-◌, ◌%◌, ◌^◌, ◌≡◌, Bool, ◌&&◌, ◌||◌}
use libxice.Base.{List, [], ◌∷◌, ◌++◌, All, ◌<◌, length, replicate, ltb, ◌==◌, if◌then◌else◌}
use libxice.Base.Memory.{Memory, load_bytes}
use libxice.Stun.Message.Append.{bytes16}
use mathlib.Core.List.{reverse}

-- HMAC-SHA1 of a key and a text, and MD5 of a text. What the code relies on is the size of the first.
pub record Crypto : Type 0 where
  pub hmac_sha1 : List ℕ → List ℕ → List ℕ
  pub md5 : List ℕ → List ℕ
  pub hmac_sha1-length : (key text : List ℕ) → length (hmac_sha1 key text) ≡ 20
  pub hmac_sha1-bytes : (key text : List ℕ) → All (λ b. b < 256) (hmac_sha1 key text)

-- `(len - 24) % 64` zeros are missing to a multiple of 64.
abbrev pub sha1_padding : ℕ → Bool → List ℕ
sha1_padding len padding =
    let over = (len - 24) % 64 in if padding && ltb 0 over then replicate (64 - over) 0 else []

-- The text that `stun_sha1` hands on: the type, the length `msg_len` in place of that of the message,
-- the bytes from 4 to `len - 24`, and the padding. `len` is 44 at least.
abbrev pub sha1_text : Memory → ℕ → ℕ → Bool → List ℕ
sha1_text msg len msg_len padding =
    load_bytes msg 0 2
    ++ (bytes16 (msg_len % 2 ^ 16) ++ (load_bytes msg 4 (len - 28) ++ sha1_padding len padding))

unfoldable pub stun_sha1 : Crypto → Memory → ℕ → ℕ → List ℕ → Bool → List ℕ
stun_sha1 crypto msg len msg_len key padding =
    crypto.hmac_sha1 key (sha1_text msg len msg_len padding)

abbrev pub drop_quotes : List ℕ → List ℕ
drop_quotes [] = []
drop_quotes (x ∷ xs) = let rest = drop_quotes xs in if x == b'"' then rest else x ∷ xs

abbrev pub drop_trailer : List ℕ → List ℕ
drop_trailer [] = []
drop_trailer (x ∷ xs) =
    let rest = drop_trailer xs in if (x == b'"') || (x == 0) then rest else x ∷ xs

-- Leading quotes, and trailing quotes and zeros, are cut off. (Where nothing else is in the value, the
-- loops of the C function go on outside it.)
unfoldable pub priv_trim_var : List ℕ → List ℕ
priv_trim_var var = reverse (drop_trailer (reverse (drop_quotes var)))

unfoldable pub stun_hash_creds : Crypto → List ℕ → List ℕ → List ℕ → List ℕ
unfolding priv_trim_var
stun_hash_creds crypto realm username password =
    crypto.md5
      (priv_trim_var username ++ (b':' ∷ (priv_trim_var realm ++ (b':' ∷ priv_trim_var password))))
