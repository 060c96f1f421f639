-- ===== src/Examples/Panel.antt =====
-- The clock of the panel that the configuration names, of 33 MHz.
use bsp_v3s.Common.{◌≡◌, refl, arith}
use bsp_v3s.Display.{best_divider}
use bsp_v3s.Display.Pll.{IsBest, best_divider-IsBest}

best_divider-IsBest_example :
    IsBest 33000 6 128 (best_divider 0 33000) × IsBest 33000 1 16 (best_divider 1 33000)
best_divider-IsBest_example = best_divider-IsBest 33000 (omega arith)

-- No divider serves a pixel clock of 65 MHz: the factor of the PLL stays 0.
unserved : (best_divider 0 65000).best_n ≡ 0
unfolding best_divider
unserved = refl
