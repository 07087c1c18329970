-- ===== src/Ipc/Signal/Examples.antt =====
-- Signals at a small input: the theorems applied.
use seraph.Prelude.{◌≡◌, ◌≢◌, ◌⊎◌, none, some}
use seraph.Ipc.World.{World}
use seraph.Ipc.World.Threads.{IsBlocked}
use seraph.Ipc.World.Sample.{world, signal}
use seraph.Ipc.Signal.{signal_wait, wait_register, wait_harvest}
use seraph.Ipc.Signal.Receive.{signal_wait-Takes}
use seraph.Ipc.Signal.Race.{Race}

-- Thread 9 registers and blocks.
abbrev quiet : Race
quiet = record { world = world; checking = 0; entering = 0; inside = none }

abbrev blocked : Race
blocked = record {
  world = (wait_harvest (wait_register world 2 9) 2 9).1;
  checking = 0;
  entering = 0;
  inside = none;
}

abbrev ringing : World
ringing = record world { signals = λ _. record signal { bits = 6 } }

signal_wait_example :
    (w' : World) × (((ringing.signals 2).bits ≢ 0)
        × (signal_wait ringing 2 9 ≡ (some 6, w'))
        × ((w'.signals 2).bits ≡ 0)
        × ((w'.signals 2).waiter ≡ 0)
      ⊎ ((ringing.signals 2).bits ≡ 0)
        × (signal_wait ringing 2 9 ≡ (none, w'))
        × ((w'.signals 2).bits ≡ 0)
        × ((w'.signals 2).waiter ≡ 9)
        × ((w'.signals 2).has_observer ≡ 1)
        × IsBlocked w'.machine 9 2)
signal_wait_example = signal_wait-Takes ringing 2 9
