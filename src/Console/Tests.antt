-- ===== src/Console/Tests.antt =====
-- The theorems on the console at a screen whose cursor is in the last row.
use deputy_kernel.Base.{
  ℕ, ◌*◌, ◌≡◌, refl, true, false, [], ◌∷◌, arith, ok, length, length-replicate, replicate,
}
use deputy_kernel.Console.{Console, width, height, print}
use deputy_kernel.Console.Cursor.{OnScreen, print-OnScreen}

abbrev screen : Console
screen = record {
  active = true;
  hard_serial = false;
  memory = replicate (width * height) 0x0720;
  color = 7;
  cursor = 1995;
  ports = [];
}

screen_size : length screen.memory ≡ width * height
screen_size = length-replicate {A = ℕ} 2000 0x0720

screen-OnScreen : OnScreen screen
screen-OnScreen = record { active = refl; size = screen_size; cursor = omega arith }

print-OnScreen_example :
    (s' : Console) × (print 0 0 (65 ∷ 9 ∷ 10 ∷ []) 3 screen ≡ ok s') × OnScreen s'
print-OnScreen_example = print-OnScreen 0 0 (65 ∷ 9 ∷ 10 ∷ []) 3 screen-OnScreen (omega arith)
