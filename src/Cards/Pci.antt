-- ===== src/Cards/Pci.antt =====
-- The configuration space of PCI: `pciInb`, `pciInw` and `pciInd` of src/main.h, and the search for
-- a card in `completed`.
--
-- The registers are a function of the address written to port 0xCF8. The fields of that address do
-- not overlap for the numbers that the code passes (256 buses, 32 devices of 8 functions, and
-- registers below 256), so the `|` of the source is a sum.
use korby_os.Base.{ℕ, ◌+◌, ◌*◌, ◌/◌, ◌%◌, ◌^◌, ◌<◌, ◌≡◌, ap₂, u8, u16, arith}

abbrev pub Registers : Type 0
Registers = ℕ → ℕ

unfoldable pub pci_address : ℕ → ℕ → ℕ → ℕ → ℕ
pci_address bus device function offset =
    0x80000000 + bus * 2 ^ 16 + device * 2 ^ 11 + function * 2 ^ 8 + offset

-- `offset & ~0x3` and `offset & 0x3`
abbrev pub aligned : ℕ → ℕ
aligned offset = offset / 4 * 4

module _ (registers : Registers) (bus device function offset : ℕ) where
  unfoldable pub pci_inb : ℕ
  pci_inb = u8 (registers (pci_address bus device function (aligned offset)) / 2 ^ (offset % 4 * 8))

  unfoldable pub pci_inw : ℕ
  pci_inw =
      u16 (registers (pci_address bus device function (aligned offset)) / 2 ^ (offset % 4 * 8))

  unfoldable pub pci_ind : ℕ
  pci_ind = registers (pci_address bus device function offset)

-- A place on the bus that the search visits.
pub record IsPlace (bus device function offset : ℕ) : Type 0 where
  pub bus_below : bus < 256
  pub device_below : device < 32
  pub function_below : function < 8
  pub offset_below : offset < 256

-- Different places have different addresses.
pub pci_address-injective :
    (b d f o b' d' f' o' : ℕ)
    → IsPlace b d f o
    → IsPlace b' d' f' o'
    → pci_address b d f o ≡ pci_address b' d' f' o'
    → (b ≡ b') × (d ≡ d') × (f ≡ f') × (o ≡ o')
unfolding pci_address
pci_address-injective b d f o b' d' f' o' p q e =
    (let b0 = p.bus_below in
      let d0 = p.device_below in
      let f0 = p.function_below in
      let o0 = p.offset_below in
      let b1 = q.bus_below in
      let d1 = q.device_below in
      let f1 = q.function_below in
      let o1 = q.offset_below in (omega arith, omega arith, omega arith, omega arith))

-- A byte of a register, by its number in it.
pci_inb-part :
    (r : Registers) (b d f word part : ℕ)
    → part < 4
    → pci_inb r b d f (word * 4 + part) ≡ u8 (pci_ind r b d f (word * 4) / 2 ^ (part * 8))
unfolding pci_inb pci_ind
pci_inb-part r b d f word part below =
    ap₂ (λ (o : ℕ) (k : ℕ). u8 (r (pci_address b d f o) / 2 ^ (k * 8))) (omega arith) (omega arith)

pci_inw-part :
    (r : Registers) (b d f word part : ℕ)
    → part < 4
    → pci_inw r b d f (word * 4 + part) ≡ u16 (pci_ind r b d f (word * 4) / 2 ^ (part * 8))
unfolding pci_inw pci_ind
pci_inw-part r b d f word part below =
    ap₂ (λ (o : ℕ) (k : ℕ). u16 (r (pci_address b d f o) / 2 ^ (k * 8))) (omega arith) (omega arith)

-- A register of 32 bits is read whole, as two words and as four bytes with the same value.
pub pci_ind-parts :
    (r : Registers) (b d f word : ℕ)
    → pci_ind r b d f (word * 4) < 2 ^ 32
    → (pci_ind r b d f (word * 4)
        ≡ pci_inw r b d f (word * 4 + 0) + 2 ^ 16 * pci_inw r b d f (word * 4 + 2))
      × (pci_ind r b d f (word * 4)
          ≡ pci_inb r b d f (word * 4 + 0)
            + 2 ^ 8 * pci_inb r b d f (word * 4 + 1)
            + 2 ^ 16 * pci_inb r b d f (word * 4 + 2)
            + 2 ^ 24 * pci_inb r b d f (word * 4 + 3))
pci_ind-parts r b d f word small =
    (let low = pci_inw-part r b d f word 0 (omega arith) in
      let high = pci_inw-part r b d f word 2 (omega arith) in
      let b0 = pci_inb-part r b d f word 0 (omega arith) in
      let b1 = pci_inb-part r b d f word 1 (omega arith) in
      let b2 = pci_inb-part r b d f word 2 (omega arith) in
      let b3 = pci_inb-part r b d f word 3 (omega arith) in
      (omega (arith, low, high, small), omega (arith, b0, b1, b2, b3, small)))
