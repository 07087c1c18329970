-- ===== src/Cap/Rights.antt =====
-- kernel/src/cap/slot.rs, `Rights`: the bit mask of what a capability allows. A mask is a number.
use seraph.Prelude.{ℕ, ◌^◌, Bool, ◌==◌, bit_and}

abbrev pub no_rights : ℕ
no_rights = 0

abbrev pub map : ℕ
map = 2 ^ 0

abbrev pub write : ℕ
write = 2 ^ 1

abbrev pub execute : ℕ
execute = 2 ^ 2

abbrev pub read : ℕ
read = 2 ^ 3

abbrev pub send : ℕ
send = 2 ^ 4

abbrev pub receive : ℕ
receive = 2 ^ 5

abbrev pub grant : ℕ
grant = 2 ^ 6

abbrev pub signal : ℕ
signal = 2 ^ 7

abbrev pub wait : ℕ
wait = 2 ^ 8

abbrev pub post : ℕ
post = 2 ^ 9

abbrev pub recv : ℕ
recv = 2 ^ 10

abbrev pub control : ℕ
control = 2 ^ 11

abbrev pub observe : ℕ
observe = 2 ^ 12

abbrev pub insert : ℕ
insert = 2 ^ 13

abbrev pub delete : ℕ
delete = 2 ^ 14

abbrev pub derive : ℕ
derive = 2 ^ 15

abbrev pub revoke : ℕ
revoke = 2 ^ 16

abbrev pub modify : ℕ
modify = 2 ^ 17

abbrev pub use_ports : ℕ
use_ports = 2 ^ 18

abbrev pub elevate : ℕ
elevate = 2 ^ 19

abbrev pub call : ℕ
call = 2 ^ 20

abbrev pub contains : ℕ → ℕ → Bool
contains rights mask = bit_and rights mask == mask
