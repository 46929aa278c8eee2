-- ===== src/Input/Keyboard.antt =====
-- The codes of keys, include/drv/keyboard.h.
use deputy_kernel.Base.{ℕ, ◌+◌, ◌/◌, ◌%◌, ◌<◌, arith, ◌==◌, if◌then◌else◌}

-- The enumeration, KEY_UNKNOWN first.
pub data Key : Type 0 where
  key_unknown key_esc key_f1 key_f2 key_f3 key_f4 key_f5 key_f6 key_f7 key_f8 key_f9 key_f10 : Key
  key_f11 key_f12 key_backtick key_1 key_2 key_3 key_4 key_5 key_6 key_7 key_8 key_9 key_0 : Key
  key_minus key_equal key_backspace key_tab key_q key_w key_e key_r key_t key_y key_u key_i : Key
  key_o key_p key_openbracket key_closebracket key_enter key_capslock key_a key_s key_d key_f : Key
  key_g key_h key_j key_k key_l key_semicolon key_quote key_backslash key_shift key_z key_x : Key
  key_c key_v key_b key_n key_m key_comma key_period key_slash key_ctrl key_meta key_alt : Key
  key_space key_altgr key_prtscrn key_scrolllock key_pause key_insert key_delete key_home : Key
  key_end key_pageup key_pagedown key_arrowup key_arrowdown key_arrowleft key_arrowright : Key
  key_numlock key_np_slash key_np_asterisk key_np_minus key_np_plus key_np_7 key_np_8 key_np_9 : Key
  key_np_4 key_np_5 key_np_6 key_np_1 key_np_2 key_np_3 key_np_0 key_np_period key_np_enter : Key

-- The value of a constant: an enumeration counts up from 0.
unfoldable pub key_code : Key → ℕ
key_code key_unknown = 0
key_code key_esc = 1
key_code key_f1 = 2
key_code key_f2 = 3
key_code key_f3 = 4
key_code key_f4 = 5
key_code key_f5 = 6
key_code key_f6 = 7
key_code key_f7 = 8
key_code key_f8 = 9
key_code key_f9 = 10
key_code key_f10 = 11
key_code key_f11 = 12
key_code key_f12 = 13
key_code key_backtick = 14
key_code key_1 = 15
key_code key_2 = 16
key_code key_3 = 17
key_code key_4 = 18
key_code key_5 = 19
key_code key_6 = 20
key_code key_7 = 21
key_code key_8 = 22
key_code key_9 = 23
key_code key_0 = 24
key_code key_minus = 25
key_code key_equal = 26
key_code key_backspace = 27
key_code key_tab = 28
key_code key_q = 29
key_code key_w = 30
key_code key_e = 31
key_code key_r = 32
key_code key_t = 33
key_code key_y = 34
key_code key_u = 35
key_code key_i = 36
key_code key_o = 37
key_code key_p = 38
key_code key_openbracket = 39
key_code key_closebracket = 40
key_code key_enter = 41
key_code key_capslock = 42
key_code key_a = 43
key_code key_s = 44
key_code key_d = 45
key_code key_f = 46
key_code key_g = 47
key_code key_h = 48
key_code key_j = 49
key_code key_k = 50
key_code key_l = 51
key_code key_semicolon = 52
key_code key_quote = 53
key_code key_backslash = 54
key_code key_shift = 55
key_code key_z = 56
key_code key_x = 57
key_code key_c = 58
key_code key_v = 59
key_code key_b = 60
key_code key_n = 61
key_code key_m = 62
key_code key_comma = 63
key_code key_period = 64
key_code key_slash = 65
key_code key_ctrl = 66
key_code key_meta = 67
key_code key_alt = 68
key_code key_space = 69
key_code key_altgr = 70
key_code key_prtscrn = 71
key_code key_scrolllock = 72
key_code key_pause = 73
key_code key_insert = 74
key_code key_delete = 75
key_code key_home = 76
key_code key_end = 77
key_code key_pageup = 78
key_code key_pagedown = 79
key_code key_arrowup = 80
key_code key_arrowdown = 81
key_code key_arrowleft = 82
key_code key_arrowright = 83
key_code key_numlock = 84
key_code key_np_slash = 85
key_code key_np_asterisk = 86
key_code key_np_minus = 87
key_code key_np_plus = 88
key_code key_np_7 = 89
key_code key_np_8 = 90
key_code key_np_9 = 91
key_code key_np_4 = 92
key_code key_np_5 = 93
key_code key_np_6 = 94
key_code key_np_1 = 95
key_code key_np_2 = 96
key_code key_np_3 = 97
key_code key_np_0 = 98
key_code key_np_period = 99
key_code key_np_enter = 100

-- KEY_RELEASE, and `key |= KEY_RELEASE`.
abbrev pub key_release : ℕ
key_release = 128

abbrev pub set_release : ℕ → ℕ
set_release key = if key / key_release % 2 == 1 then key else key + key_release

-- `key & KEY_CODE`
abbrev pub code_of : ℕ → ℕ
code_of key = key % key_release

pub key_code-lt : (k : Key) → key_code k < 128
unfolding key_code
key_code-lt k = ground arith
