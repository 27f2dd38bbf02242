-- ===== src/Uart/Tests.antt =====
-- The theorem on src/ungula/hal/uart at a concrete input.
use ungula_hal.Base.{ℕ, ◌≡◌, ◌≢◌, refl, Bool, true, false, [], arith, ◌==◌, if◌then◌else◌}
use ungula_hal.Base.Int.{pos}
use ungula_hal.Uart.{Driver, Uart, begin, destroy}
use ungula_hal.Uart.Owner.{Laws, begin-destroy}

-- The driver's state says at which ports it is installed; it refuses a second one.
abbrev at : ℕ → Bool → (ℕ → Bool) → ℕ → Bool
at p b w q = if q == p then b else w q

abbrev model : Driver
model = record {
  Hw = ℕ → Bool;
  ms_to_ticks = λ n. n;
  param_config = λ p b w. (true, w);
  set_pin = λ p t r w. (true, w);
  install = λ p r t w. if w p then (false, w) else (true, at p true w);
  uninstall = λ p w. at p false w;
  write_bytes = λ p bs w. (pos 0, w);
  read_bytes = λ p n t w. (pos 0, [], w);
  wait_tx_done = λ p t w. w;
  flush_rx = λ p w. w;
}

abbrev port_2 : Uart
port_2 = record { port = 2; installed = false }

abbrev none_in : ℕ → Bool
none_in p = false

at_self : (p : ℕ) (b : Bool) (w : ℕ → Bool) → at p b w p ≡ b
at_self p b w = ground arith

at_ne : (q p : ℕ) (b : Bool) (w : ℕ → Bool) → q ≢ p → at p b w q ≡ w q
at_ne q p b w ne = ground (arith, ne)

install_ok_lem :
    (p : ℕ) (w : ℕ → Bool) → (model.install p 0 0 w).0 ≡ true → (model.install p 0 0 w).1 p ≡ true
install_ok_lem p w h = ground (arith, h, at_self p true w)

install_failed_lem :
    (p : ℕ) (w : ℕ → Bool) → (model.install p 0 0 w).0 ≡ false → (model.install p 0 0 w).1 p ≡ w p
install_failed_lem p w h = ground (arith, h)

install_elsewhere_lem : (q p : ℕ) (w : ℕ → Bool) → q ≢ p → (model.install p 0 0 w).1 q ≡ w q
install_elsewhere_lem q p w ne = ground (arith, at_ne q p true w ne)

abbrev laws : Laws model
laws = record {
  has = λ p w. w p;
  param_config_keeps = λ q p b w. refl;
  set_pin_keeps = λ q p tx rx w. refl;
  install_ok = λ p r t w h. install_ok_lem p w h;
  install_failed = λ p r t w h. install_failed_lem p w h;
  install_elsewhere = λ q p r t w ne. install_elsewhere_lem q p w ne;
  uninstalled = λ p w. at_self p false w;
}

begin_result : (begin model 115200 1 3 256 0 port_2 none_in).0 ≡ true
unfolding begin
begin_result = refl

begin-destroy_example :
    let (done, u', w') = begin model 115200 1 3 256 0 port_2 none_in in
    (done ≡ true
      → (port_2.installed ≡ false)
        × (u'.installed ≡ true)
        × (w' 2 ≡ true)
        × (destroy model u' w' 2 ≡ false))
    × (done ≡ false → (u' ≡ port_2) × (w' 2 ≡ none_in 2))
    × ((q : ℕ) → q ≢ 2 → w' q ≡ none_in q)
begin-destroy_example = begin-destroy model laws 115200 1 3 256 0 port_2 none_in
