-- ===== src/IoCall/Queue/Tests.antt =====
-- A device file in memory.
use deputy_kernel.Base.{ℕ, ◌≡◌, refl, inr, arith, [], ◌∷◌, ◌==◌, if◌then◌else◌}
use deputy_kernel.Utils.Buffers.{fill, ncopy, range_bytes}
use deputy_kernel.IoCall.{load_word, store_word, take_waiting}
use deputy_kernel.IoCall.Descriptors.{put_waiting}
use deputy_kernel.IoCall.Queue.{IsDevice, Put, put_waiting-Put}
use deputy_kernel.IoCall.Queue.Take.{Taken, take_waiting-Taken}

-- A device file of 16 bytes at 1000 that holds one byte, 9, and three bytes at 2000.
abbrev device_ram : ℕ → ℕ
device_ram a =
    if a == 1000
    then 1
    else if a == 1004
    then 9
    else if a == 2000
    then 5
    else if a == 2001
    then 6
    else if a == 2002
    then 7
    else 0

device_ram-IsDevice : IsDevice 1000 16 device_ram
unfolding load_word
device_ram-IsDevice = record { room = omega arith; bound = omega arith }

put_waiting-Put_example : Put 1000 16 2000 3 0 device_ram (put_waiting 1000 2000 16 3 0 device_ram)
put_waiting-Put_example =
    put_waiting-Put 1000 16 3 2000 0 device_ram device_ram-IsDevice (inr (omega arith))

take_waiting-Taken_example :
    Taken 1000 16 2000 3 device_ram device_ram-IsDevice
      (inr (omega arith))
      (take_waiting 1000 2000 3 16 device_ram)
take_waiting-Taken_example =
    take_waiting-Taken 1000 16 2000 3 device_ram device_ram-IsDevice (inr (omega arith))

-- What is written comes out behind what was there.
written_and_read :
    range_bytes (take_waiting 1000 3000 4 16 (put_waiting 1000 2000 16 3 0 device_ram).1).1 3000 4
    ≡ 9 ∷ 5 ∷ 6 ∷ 7 ∷ []
unfolding take_waiting put_waiting range_bytes load_word store_word fill ncopy
written_and_read = refl
