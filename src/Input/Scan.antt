-- ===== src/Input/Scan.antt =====
-- What a poll makes of the bytes that the controller delivers.
use deputy_kernel.Base.{
  ℕ, zero, suc, ◌<◌, ◌≡◌, arith, Bool, true, false, ◌||◌, ◌==◌, List, [], ◌∷◌, ◌++◌, length,
  if◌then◌else◌, none, some, ◌≢◌, ◌⊎◌, ◌/◌, ◌≤◌, Option-cases, inl, inr,
}
use deputy_kernel.Hw.Ports.{Ports, port_inb}
use deputy_kernel.Input.Keyboard.{Key, key_code, key_code-lt, key_release, code_of}
use deputy_kernel.Input.Keymap.{key_table, ext_key_table, key_at}
use deputy_kernel.Input.Controller.{
  Event, nothing, key, index_port, data_port, extended, released, output_full, second_full,
  key_event, rescan, proc_keyboard, i8042_proc,
}

abbrev pub is_prefix : ℕ → Bool
is_prefix b = b == extended || b == released

-- Is the byte among the prefixes?
abbrev pub has_byte : ℕ → List ℕ → Bool
has_byte b [] = false
has_byte b (c ∷ cs) = c == b || has_byte b cs

abbrev pub AllPrefixes : List ℕ → Type 0
AllPrefixes [] = Unit
AllPrefixes (b ∷ bs) = (is_prefix b ≡ true) × AllPrefixes bs

-- The key that the tables designate for a scan code after these prefixes.
abbrev pub designated : List ℕ → ℕ → Key
designated ps b = key_at (if has_byte extended ps then ext_key_table else key_table) b

module _ {S : Type 0} (p : Ports S) where
  -- From `s` on, the data port delivers the bytes one by one, and the machine is then in `t`.
  abbrev pub Delivers : List ℕ → S → S → Type 0
  Delivers [] s t = s ≡ t
  Delivers (b ∷ bs) s t =
      ((port_inb p data_port (p.pause s)).0 ≡ b)
      × Delivers bs (port_inb p data_port (p.pause s)).1 t

  rescan-Delivers :
      (ps : List ℕ) (b n : ℕ) (ext rel : Bool) (s t : S)
      → AllPrefixes ps
      → is_prefix b ≡ false
      → length ps < n
      → Delivers (ps ++ b ∷ []) s t
      → rescan p n ext rel s
        ≡ some ((ext || has_byte extended ps, rel || has_byte released ps, b), t)
  unfolding rescan
  rescan-Delivers ps b zero ext rel s t hp hb hn d = absurd (omega arith)
  rescan-Delivers [] b (suc n) ext rel s t hp hb hn d = ground arith
  rescan-Delivers (q ∷ ps) b (suc n) ext rel s t hp hb hn d = ground (
    arith,
    rescan-Delivers ps b n true rel (port_inb p data_port (p.pause s)).1 t,
    rescan-Delivers ps b n ext true (port_inb p data_port (p.pause s)).1 t,
  )

  pub i8042_proc-Delivers :
      (ps : List ℕ) (b n : ℕ) (s t : S)
      → AllPrefixes ps
      → is_prefix b ≡ false
      → length ps < n
      → output_full (port_inb p index_port s).0 ≡ true
      → second_full (port_inb p index_port (port_inb p index_port s).1).0 ≡ false
      → Delivers (ps ++ b ∷ []) (port_inb p index_port (port_inb p index_port s).1).1 t
      → i8042_proc p n true s ≡ some (key_event (has_byte extended ps) (has_byte released ps) b, t)
  unfolding i8042_proc proc_keyboard
  i8042_proc-Delivers ps b n s t hp hb hn full first d = ground (
    arith,
    rescan-Delivers ps b n false false (port_inb p index_port (port_inb p index_port s).1).1 t hp hb
        hn d,
  )

  -- A poll with the lock set, which finds the output buffer full and not from the mouse, and to
  -- which the controller delivers some prefixes E0 and F0 and then another byte: it sends nothing
  -- if the tables designate no key for that byte, and else one byte, whose lower seven bits are
  -- that key (from the extended table exactly if E0 came) and whose highest bit is set exactly if
  -- F0 came.
  pub i8042_proc-Sent :
      (ps : List ℕ) (b n : ℕ) (s t : S)
      → AllPrefixes ps
      → is_prefix b ≡ false
      → length ps < n
      → output_full (port_inb p index_port s).0 ≡ true
      → second_full (port_inb p index_port (port_inb p index_port s).1).0 ≡ false
      → Delivers (ps ++ b ∷ []) (port_inb p index_port (port_inb p index_port s).1).1 t
      → ((key_code (designated ps b) ≡ 0) × (i8042_proc p n true s ≡ some (nothing, t)))
        ⊎ ((e : ℕ) × (i8042_proc p n true s ≡ some (key e, t))
            × (0 < key_code (designated ps b))
            × (code_of e ≡ key_code (designated ps b))
            × (e / key_release ≡ (if has_byte released ps then 1 else 0)))
  unfolding key_event
  i8042_proc-Sent ps b n s t hp hb hn full first d =
      ground
        (arith, i8042_proc-Delivers ps b n s t hp hb hn full first d, key_code-lt (designated ps b))

  -- Does a byte that is no prefix come within `n` bytes?
  abbrev pub answers : ℕ → S → Bool
  answers zero s = false
  answers (suc n) s =
      let rest = answers n (port_inb p data_port (p.pause s)).1 in
      if is_prefix (port_inb p data_port (p.pause s)).0 then rest else true

  rescan-answers :
      (n m : ℕ) (ext rel : Bool) (s : S)
      → answers n s ≡ true
      → n ≤ m
      → rescan p m ext rel s ≡ rescan p n ext rel s
  unfolding rescan
  rescan-answers zero m ext rel s h le = absurd (cc)
  rescan-answers (suc n) zero ext rel s h le = absurd (omega arith)
  rescan-answers (suc n) (suc m) ext rel s h le = ground (
    arith,
    rescan-answers n m true rel (port_inb p data_port (p.pause s)).1,
    rescan-answers n m ext true (port_inb p data_port (p.pause s)).1,
  )

  rescan-ne-none :
      (n : ℕ) (ext rel : Bool) (s : S) → answers n s ≡ true → rescan p n ext rel s ≢ none
  unfolding rescan
  rescan-ne-none zero ext rel s h = absurd (cc)
  rescan-ne-none (suc n) ext rel s h = ground (
    arith,
    rescan-ne-none n true rel (port_inb p data_port (p.pause s)).1,
    rescan-ne-none n ext true (port_inb p data_port (p.pause s)).1,
  )

  -- If a byte that is no prefix comes within n bytes of the data port after the status, a poll
  -- ends, with the same result for any fuel from n on.
  pub i8042_proc-answers :
      (n : ℕ) (init_lock : Bool) (s : S)
      → answers n (port_inb p index_port (port_inb p index_port s).1).1 ≡ true
      → (r : Event × S) × ((m : ℕ) → n ≤ m → i8042_proc p m init_lock s ≡ some r)
  unfolding i8042_proc proc_keyboard
  i8042_proc-answers n init_lock s h = elim (Option-cases (i8042_proc p n init_lock s)) [
    | inl e ↦ absurd (
        ground (
          arith,
          rescan-ne-none n false false (port_inb p index_port (port_inb p index_port s).1).1 h,
        ))
    | inr (r, e) ↦ (
      r,
      λ m le. ground (
        arith,
        rescan-answers n m false false (port_inb p index_port (port_inb p index_port s).1).1 h le,
      ),
    )
  ]
