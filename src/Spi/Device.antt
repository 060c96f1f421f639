-- ===== src/Spi/Device.antt =====
-- driver/drv_spi.c: the kernel's SPI operations on uboot/sunxi_spi.c.
use bsp_v3s.Common.{ℕ, ◌*◌, bit_and, bit_or, if◌then◌else◌, Bool, List, Option, none, some, ℤ, pos}
use bsp_v3s.Word.{u32}
use bsp_v3s.Machine.Io.{M, pure, ◌>>=◌}
use bsp_v3s.Spi.{Priv, sunxi_spi_set_speed, sunxi_spi_set_mode, sunxi_spi_claim_bus, sunxi_spi_xfer}

-- `mode_mask` is the kernel's RT_SPI_CPHA | RT_SPI_CPOL. `none` is a wait of the bus that goes on.
unfoldable pub spi_configure : ℕ → ℕ → ℕ → ℕ → M (Option ℤ)
spi_configure fuel mode_mask max_hz mode = do
  a ← sunxi_spi_set_speed max_hz
  b ← sunxi_spi_set_mode (bit_and mode mode_mask)
  c ← sunxi_spi_claim_bus fuel
  pure (elim c [ none ↦ none | some r ↦ some (pos 0) ])

-- The fields of `struct rt_spi_message` that are read; `length` is in bytes.
pub record Message : Type 0 where
  pub cs_take : Bool
  pub cs_release : Bool
  pub length : ℕ
  pub send_buf : Option (ℕ → ℕ)

abbrev pub transfer_flag : Message → ℕ
transfer_flag message =
    let take = if message.cs_take then bit_or 0 0x01 else 0 in
    if message.cs_release then bit_or take 0x02 else take

-- The length, the device's new state and the bytes received, newest first.
unfoldable pub spi_xfer : ℕ → ℕ → Priv → ℕ → Message → M (Option (ℕ × Priv × List ℕ))
spi_xfer fuel tick p cs message = do
  r ←
      sunxi_spi_xfer fuel tick p (u32 (message.length * 8)) cs message.send_buf
        (transfer_flag message)
  pure (elim r [ none ↦ none | some s ↦ some (message.length, s.1, s.2) ])
