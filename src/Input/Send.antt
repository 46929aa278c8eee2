-- ===== src/Input/Send.antt =====
-- `key_send` of source/drv/keyboard.c and `mouse_send` of source/drv/mouse.c: what a poll has found
-- goes to the device files, by the calls on descriptors. `addr` is where the bytes lie on the stack.
use deputy_kernel.Base.{
  ℕ, ◌%◌, Bool, true, false, List, [], ◌∷◌, ◌==◌, if◌then◌else◌, Run, ok, ◌>>=◌, ℤ, pos, negsuc,
}
use deputy_kernel.Utils.Buffers.{poke_all}
use deputy_kernel.IoCall.{Io, Env, wronly, set_bytes}
use deputy_kernel.IoCall.Descriptors.{open_file, write, close}
use deputy_kernel.Input.Controller.{Event, nothing, key, mouse}

-- "/dev/keyboard" and "/dev/mouse".
abbrev pub keyboard_path : List ℕ
keyboard_path = 47 ∷ 100 ∷ 101 ∷ 118 ∷ 47 ∷ 107 ∷ 101 ∷ 121 ∷ 98 ∷ 111 ∷ 97 ∷ 114 ∷ 100 ∷ []

abbrev pub mouse_path : List ℕ
mouse_path = 47 ∷ 100 ∷ 101 ∷ 118 ∷ 47 ∷ 109 ∷ 111 ∷ 117 ∷ 115 ∷ 101 ∷ []

-- `dev == -1`
abbrev pub is_minus_one : ℤ → Bool
is_minus_one dev = elim dev [ pos n ↦ false | negsuc n ↦ n == 0 ]

-- The write, which is left out if the device file does not open.
unfoldable pub send_write : Env → ℕ → List ℕ → ℕ → ℤ → Io → Run Io
send_write env addr bytes count dev io = if is_minus_one dev then ok io else do
  (n, io') ← write env dev addr count (set_bytes (poke_all bytes addr io.fs.memory.bytes) io)
  ok io'

unfoldable pub key_send : Env → (addr code : ℕ) → Io → Run Io
key_send env addr code io = do
  (dev, opened) ← open_file env keyboard_path wronly (record io { force_access = true })
  written ← send_write env addr (code ∷ []) 1 dev opened
  (status, io') ← close dev written
  ok (record io' { force_access = false })

unfoldable pub mouse_send : Env → (addr stat xmov ymov : ℕ) → Io → Run Io
mouse_send env addr stat xmov ymov io = do
  (dev, opened) ← open_file env mouse_path wronly (record io { force_access = true })
  written ← send_write env addr (stat % 8 ∷ xmov ∷ ymov ∷ []) 3 dev opened
  (status, io') ← close dev written
  ok (record io' { force_access = false })

-- What `i8042_proc` does with what it finds.
unfoldable pub send : Env → ℕ → Event → Io → Run Io
send env addr nothing io = ok io
send env addr (key k) io = key_send env addr k io
send env addr (mouse s x y) io = mouse_send env addr s x y io
