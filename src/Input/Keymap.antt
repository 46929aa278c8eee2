-- ===== src/Input/Keymap.antt =====
-- The scan code tables of source/hw/i8042.c, with the designated initialisers in their order.
use deputy_kernel.Base.{ℕ, List, [], ◌∷◌, ◌==◌, if◌then◌else◌}
use deputy_kernel.Input.Keyboard.{
  Key, key_0, key_1, key_2, key_3, key_4, key_5, key_6, key_7, key_8, key_9, key_a, key_alt,
  key_altgr, key_arrowdown, key_arrowleft, key_arrowright, key_arrowup, key_b, key_backslash,
  key_backspace, key_backtick, key_c, key_capslock, key_closebracket, key_comma, key_ctrl, key_d,
  key_delete, key_e, key_end, key_enter, key_equal, key_esc, key_f, key_f1, key_f10, key_f11,
  key_f12, key_f2, key_f3, key_f4, key_f5, key_f6, key_f7, key_f8, key_f9, key_g, key_h, key_home,
  key_i, key_insert, key_j, key_k, key_l, key_m, key_meta, key_minus, key_n, key_np_0, key_np_1,
  key_np_2, key_np_3, key_np_4, key_np_5, key_np_6, key_np_7, key_np_8, key_np_9, key_np_asterisk,
  key_np_enter, key_np_minus, key_np_period, key_np_plus, key_np_slash, key_numlock, key_o,
  key_openbracket, key_p, key_pagedown, key_pageup, key_period, key_q, key_quote, key_r, key_s,
  key_scrolllock, key_semicolon, key_shift, key_slash, key_space, key_t, key_tab, key_u,
  key_unknown, key_v, key_w, key_x, key_y, key_z,
}

-- `i8042_KeyTable`
abbrev pub key_table : List (ℕ × Key)
key_table =
    (1, key_f9)
    ∷ (3, key_f5)
    ∷ (4, key_f3)
    ∷ (5, key_f1)
    ∷ (6, key_f2)
    ∷ (7, key_f12)
    ∷ (9, key_f10)
    ∷ (10, key_f8)
    ∷ (11, key_f6)
    ∷ (12, key_f4)
    ∷ (13, key_tab)
    ∷ (14, key_backtick)
    ∷ (17, key_alt)
    ∷ (18, key_shift)
    ∷ (20, key_ctrl)
    ∷ (21, key_q)
    ∷ (22, key_1)
    ∷ (26, key_z)
    ∷ (27, key_s)
    ∷ (28, key_a)
    ∷ (29, key_w)
    ∷ (30, key_2)
    ∷ (33, key_c)
    ∷ (34, key_x)
    ∷ (35, key_d)
    ∷ (36, key_e)
    ∷ (37, key_4)
    ∷ (38, key_3)
    ∷ (41, key_space)
    ∷ (42, key_v)
    ∷ (43, key_f)
    ∷ (44, key_t)
    ∷ (45, key_r)
    ∷ (46, key_5)
    ∷ (49, key_n)
    ∷ (50, key_b)
    ∷ (51, key_h)
    ∷ (52, key_g)
    ∷ (53, key_y)
    ∷ (54, key_6)
    ∷ (58, key_m)
    ∷ (59, key_j)
    ∷ (60, key_u)
    ∷ (61, key_7)
    ∷ (62, key_8)
    ∷ (65, key_comma)
    ∷ (66, key_k)
    ∷ (67, key_i)
    ∷ (68, key_o)
    ∷ (69, key_0)
    ∷ (70, key_9)
    ∷ (73, key_period)
    ∷ (74, key_slash)
    ∷ (75, key_l)
    ∷ (76, key_semicolon)
    ∷ (77, key_p)
    ∷ (78, key_minus)
    ∷ (82, key_quote)
    ∷ (84, key_openbracket)
    ∷ (85, key_equal)
    ∷ (88, key_capslock)
    ∷ (89, key_shift)
    ∷ (90, key_enter)
    ∷ (91, key_closebracket)
    ∷ (93, key_backslash)
    ∷ (102, key_backspace)
    ∷ (105, key_np_1)
    ∷ (107, key_np_4)
    ∷ (108, key_np_7)
    ∷ (112, key_np_0)
    ∷ (113, key_np_period)
    ∷ (114, key_np_2)
    ∷ (115, key_np_5)
    ∷ (116, key_np_6)
    ∷ (117, key_np_8)
    ∷ (118, key_esc)
    ∷ (119, key_numlock)
    ∷ (120, key_f11)
    ∷ (121, key_np_plus)
    ∷ (122, key_np_3)
    ∷ (123, key_np_minus)
    ∷ (124, key_np_asterisk)
    ∷ (125, key_np_9)
    ∷ (126, key_scrolllock)
    ∷ (131, key_f7)
    ∷ []

-- `i8042_ExtKeyTable`
abbrev pub ext_key_table : List (ℕ × Key)
ext_key_table =
    (17, key_altgr)
    ∷ (20, key_ctrl)
    ∷ (31, key_meta)
    ∷ (39, key_meta)
    ∷ (74, key_np_slash)
    ∷ (90, key_np_enter)
    ∷ (105, key_end)
    ∷ (107, key_arrowleft)
    ∷ (108, key_home)
    ∷ (112, key_insert)
    ∷ (113, key_delete)
    ∷ (114, key_arrowdown)
    ∷ (116, key_arrowright)
    ∷ (117, key_arrowup)
    ∷ (122, key_pagedown)
    ∷ (125, key_pageup)
    ∷ []

-- `table[scan]`: the designated entry, and 0 where there is none.
unfoldable pub key_at : List (ℕ × Key) → ℕ → Key
key_at [] scan = key_unknown
key_at (e ∷ es) scan = let rest = key_at es scan in if e.0 == scan then e.1 else rest
