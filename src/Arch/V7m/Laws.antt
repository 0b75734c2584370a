-- ===== src/Arch/V7m/Laws.antt =====
-- The stub of v7m.rs keeps the promise of `Stub`.
use kangaroos.Base.{◌-◌, ◌≡◌, refl, ap, arith}
use kangaroos.Arch.Cpu.{sub32, add32, store_words}
use kangaroos.Arch.Asm.{exec}
use kangaroos.Arch.Stub.{words, entered, Saves, Restores, Starts, Stub}
use kangaroos.Arch.V7m.{save, restore, start}

pub save-Saves : Saves save
unfolding exec
save-Saves call c k room small no_fpca =
    let e : sub32 c.psp 36 ≡ c.psp - 36 = omega arith in
    (_, refl, e, ap (λ a. store_words c.mem a (words (entered c))) e, refl)

pub restore-Restores : Restores restore
unfolding exec
restore-Restores call c k x at small standard h =
    let e : add32 c.v0 36 ≡ x.psp = omega arith in (_, refl, cc, refl, refl)

pub start-Starts : Starts start
unfolding exec
start-Starts call c k x at small h =
    let e : add32 c.v0 36 ≡ x.psp = omega arith in (_, refl, cc, refl, refl, refl)

unfoldable pub v7m : Stub
v7m = record {
  save = save;
  restore = restore;
  start = start;
  saves = save-Saves;
  restores = restore-Restores;
  starts = start-Starts;
}
