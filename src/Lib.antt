-- ===== src/Lib.antt =====
-- The board support of an Allwinner V3s for RT-Thread: the drivers of uboot/, the interrupt and
-- memory code of cpu/, and the devices of driver/ that stand on them.
--
-- The parts and how they interact. Common holds numbers, lists and options; Word the 32-bit words
-- with `|`, `&`, `~` and the shifts, and the laws of their digits and fields. A register block is
-- modelled in one of two ways. Machine is a store that keeps what is written (include/asm/io.h); the
-- pins of Gpio stand on it, and Machine/Slot is a field of such a register. Machine/Io is a device
-- that changes its registers by itself: what its reads deliver is an arbitrary sequence, and what the
-- driver does is the log of its accesses; the SD/MMC, watchdog, clock, PWM, RTC, SPI, timer, Ethernet
-- and PHY drivers stand on it. Machine/Memory is the memory by bytes that the Ethernet controller
-- and its driver share.
--   Gpio       uboot/sunxi_gpio.c, uboot/pinmux.c, driver/drv_gpio.c: gpio_set_mode and
--              gpio_direction_output over sunxi_gpio_set_cfgpin, _set_pull, _set_drv; the parsers of
--              pin names (Gpio/Name)
--   Gic        cpu/gic.c: one function for each of its functions, on the record Gic
--   Interrupt  cpu/interrupt.c and rt_hw_trap_irq of cpu/trap.c: the table of service routines
--   Mmc        uboot/sunxi_mmc.c: mmc_set_mod_clk (Mmc/Clock), mmc_rint_wait,
--              mmc_trans_data_by_cpu, mmc_update_clk, sunxi_mmc_send_cmd, mmc_config_clock,
--              sunxi_mmc_set_ios; the requests and the monitor of driver/drv_tf.c (Mmc/Tf)
--   Wdt        uboot/sunxi_wdt.c and driver/drv_wdt.c
--   Rtc        uboot/rtc-sun6i.c
--   Mmu        cpu/mmu.c: the page table
--   Pwm        uboot/pwm-sun4i.c (Pwm/Divider, Config), and the backlight of driver/drv_pwm.c
--              (Pwm/Backlight)
--   Spi        uboot/sunxi_spi.c, its rate (Spi/Speed) and its transfers
--              (Spi/Log, Rounds, Transfer, Returns), and driver/drv_spi.c (Spi/Device)
--   Clk        uboot/clock_sun6i.c
--   Timer      uboot/timer.c; how long __udelay takes (Timer/Delay)
--   Div64      uboot/div64.c: __div64_32
--   Emac       uboot/sun8i_emac.c, and _emac_tx and _emac_rx of driver/drv_emac.c: the two rings of
--              descriptors with _sun8i_eth_recv, _sun8i_free_pkt and _sun8i_emac_eth_send. Emac/Ring
--              is the controller and the driver on the receive ring as a relation of steps;
--              Emac/Deliver, Emac/Receive and Emac/Order are its invariant, Emac/Transmit is sending.
--              Emac/Mac has MDIO, the MAC address, the link and the set-up; Emac/MiiWait, Mdio and Setup
--              are about these
--   Phy        uboot/phy.c: the generic PHY; genphy_parse_link is in Phy/Link, Choice and Best. The set-up
--              of Emac takes what it finds as an argument
--   Miiphy     uboot/miiphyutil.c: the registry of MDIO buses, as a list of addresses, and the access
--              to PHY registers by a bus's name (Miiphy/Access). Miiphy/Order is every order of its
--              calls, over Miiphy/Find and Miiphy/Registry; Miiphy/Lookup is the registry as a map;
--              Miiphy/Read and Miiphy/Safe are about the access
--   Cache      uboot/cache_v7.c: the lines that flush_dcache_range works on
--   Uart       uboot/ns16550.c
--   Display    uboot/sunxi_display.c: sunxi_lcdc_pll_set, which finds the clock of the panel
--   VideoModes uboot/videomodes.c: the options of a text (VideoModes/Options, Values), the settings of
--              video_get_params (Params, Settings, Get), the variable video-mode (Find, Text) and the
--              conversion of EDID timings (Edid, Margins)
--   Examples   the theorems at concrete values
--
-- Bounds and fuel. Words are natural numbers with the wrap written out. Loops that the driver counts
-- (timeouts in milliseconds or microseconds, the words of a buffer) recurse on the count. The loop
-- that halves a divider has 32 rounds, enough for a 32-bit number, and the search of a prescaler
-- has the 15 of its table. The two loops of __div64_32 take 64 rounds, which is shown to be enough.
-- Loops that wait for the device without a count (reading the RTC until two readings agree, the waits
-- of the SPI driver, of the MDIO bus and of the RTC, the delays) take fuel, and `none` or false stands
-- for a loop that goes on; for MDIO, the RTC, SPI and __udelay it is shown when the loop ends. The range
-- operations of the cache take a round for each line, and fuel above the end of the range is enough.
--
-- The Ethernet rings have 32 descriptors with a buffer of 2048 bytes each. The controller is
-- assumed to write only into descriptors that it owns, one after the other, and to give the length
-- of a frame of 64 to 2044 bytes; what is sent is taken to fit a buffer, which the code does not
-- look after; pbuf_alloc is a parameter that may fail, and whose pieces add up to the length asked
-- for.
--
-- Not modelled: printing, the registration of devices with the kernel and the threads of drivers,
-- assembly (vectors, the instructions on caches, coprocessor registers), memory barriers, the rest of
-- the display, the lists of PHY drivers. What a service routine does is its
-- own: a call of it is an event. The kernel's rt_tick_get is a read of the device; strtol,
-- strtoul and snprintf of the C library and getenv are parameters.
pub mod Common
pub mod Word
pub mod Machine
pub mod Gpio
pub mod Gic
pub mod Interrupt
pub mod Mmc
pub mod Wdt
pub mod Rtc
pub mod Emac
pub mod Timer
pub mod VideoModes
pub mod Examples
pub mod Spi
pub mod Clk
pub mod Pwm
pub mod Miiphy
pub mod Mmu
pub mod Div64
pub mod Phy
pub mod Display
pub mod Cache
pub mod Uart
