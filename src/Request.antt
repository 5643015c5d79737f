-- ===== src/Request.antt =====
-- How the stages of vendor-init compose a request in an array on the stack: a header with length 0,
-- the elements, and then the length of the body patched into bytes 5 and 6. An uninitialised array
-- stands with zeros in a stage; a request is a function of the array.
pub mod Rules
pub mod Messages
pub mod Bytes
pub mod Limits
use postmarketos_x00td_cellu.Common.{ℕ, ◌-◌, ◌/◌, ◌%◌, Option, some, List, [], ◌∷◌, take, replicate}
use postmarketos_x00td_cellu.Common.Fault.{◌>>=◌, write_bytes}

-- uint8_t b[size]
unfoldable pub array : ℕ → List ℕ
array size = replicate size 0

-- uint16_t body = off - after_hdr, and the first `off` bytes, which are what is sent.
unfoldable pub patch_body : List ℕ → ℕ → ℕ → Option (List ℕ)
patch_body req after_hdr off = do
  let body = (off - after_hdr) % 65536
  req' ← write_bytes req 5 ((body % 256) ∷ (body / 256 % 256) ∷ [])
  some (take off req')
