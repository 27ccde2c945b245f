-- ===== src/Delay/Tests.antt =====
-- A device whose every port answers 5.
use mono.Prelude.{ℕ, ◌*◌, ◌/◌, ◌%◌, ◌^◌, ◌≡◌, ◌⊎◌, some, none, [], arith, ltb, if◌then◌else◌}
use mono.Delay.{asleep, beep}
use mono.Delay.Timer.{Delays, asleep-Delays}
use mono.Delay.Speaker.{Beeps, SameWords, beep-Beeps}
use mono.Memory.{Memory}
use mono.Ports.{Device}

abbrev five : Device
five log port = 5

asleep-Delays_example : Delays (1193 * 18 * 30 % 2 ^ 16) (1800 * 30) [] (asleep 30 five []).1
asleep-Delays_example = asleep-Delays 30 five [] (omega arith)

beep-Beeps_example :
    (◌≡◌ {A = ℕ} 2505 0 × (beep 2505 350 five [] ≡ (none, [])))
    ⊎ (((beep 2505 350 five []).0 ≡ some tt)
        × Beeps five
            (1193180 / 2505 % 65536)
            (1193 * 18 * 350 % 2 ^ 16)
            (1800 * 350)
            []
            (beep 2505 350 five []).1)
beep-Beeps_example = beep-Beeps 2505 350 five [] (omega arith)

-- Two memories that differ only below the parameter.
abbrev left_memory : Memory
left_memory a = 3

abbrev right_memory : Memory
right_memory a = if ltb a 0x1000 then 9 else 3

same : SameWords 0x2000 6 left_memory right_memory
same a h l = ground arith
