-- ===== src/Delay/Controller.antt =====
-- What `initialize_keyboard` sends (src/keyboard.c).
use mono.Prelude.{ℕ, ◌≡◌, ◌≢◌, ap, ◌∙◌, List, ◌∷◌, arith}
use mono.Delay.{asleep, initialize_keyboard}
use mono.Delay.Timer.{asleep-Delays}
use mono.Ports.{Access, Device}
use mono.Ports.Writes.{writes}

quiet :
    (port : ℕ) (dev : Device) (log : List Access)
    → port ≢ 0x40
    → port ≢ 0x43
    → port ≢ 0x80
    → writes port (asleep 250 dev log).1 ≡ writes port log
quiet port dev log a b c = (asleep-Delays 250 dev log (omega arith)).no_other port a b c

command : (dev : Device) (log : List Access) → writes 0x64 (asleep 250 dev log).1 ≡ writes 0x64 log
command dev log = quiet 0x64 dev log (omega arith) (omega arith) (omega arith)

data_port :
    (dev : Device) (log : List Access) → writes 0x60 (asleep 250 dev log).1 ≡ writes 0x60 log
data_port dev log = quiet 0x60 dev log (omega arith) (omega arith) (omega arith)

-- `initialize_keyboard` sends 0xAD and 0xA7 to the controller's command port, and to the data port, in
-- this order, 0xFF, 0xF4, 0xF0, 0x02, 0xED and 7: its delays write to neither.
pub initialize_keyboard_lem :
    (dev : Device) (log : List Access)
    → (writes 0x64 (initialize_keyboard dev log).1 ≡ 0xA7 ∷ 0xAD ∷ writes 0x64 log)
      × (writes 0x60 (initialize_keyboard dev log).1
          ≡ 7 ∷ 0xED ∷ 0x02 ∷ 0xF0 ∷ 0xF4 ∷ 0xFF ∷ writes 0x60 log)
unfolding initialize_keyboard writes
initialize_keyboard_lem dev log = (
  command dev _
      ∙ command dev _
      ∙ command dev _
      ∙ command dev _
      ∙ command dev _
      ∙ command dev _
      ∙ command dev _
      ∙ ap (λ l. 0xA7 ∷ l) (command dev _),
  ap (λ l. 7 ∷ l)
      (data_port dev _
        ∙ ap (λ l. 0xED ∷ l)
            (data_port dev _
              ∙ ap (λ l. 0x02 ∷ l)
                  (data_port dev _
                    ∙ ap (λ l. 0xF0 ∷ l)
                        (data_port dev _
                          ∙ ap (λ l. 0xF4 ∷ l)
                              (data_port dev _
                                ∙ ap (λ l. 0xFF ∷ l)
                                    (data_port dev _ ∙ data_port dev _ ∙ data_port dev _)))))),
)
