-- ===== src/DecodeAddr/Memory.antt =====
-- psplink/decodeaddr.c: `g_memareas`, `memValidate` and `deref_addr`.
use psplink.Base.{
  ℕ, zero, suc, ◌+◌, ◌-◌, ◌*◌, ◌%◌, Bool, true, false, not, ◌&&◌, ◌||◌, List, [], ◌∷◌, Option, none,
  some, ltb, leb, ◌==◌, if◌then◌else◌, bit_and,
}
use psplink.Base.Memory.{Mem, lw}

-- `struct mem_entry`, without the description.
pub record MemEntry : Type 0 where
  pub addr : ℕ
  pub size : ℕ
  pub attrib : ℕ
  pub v1only : Bool

-- MEM_ATTRIB_READ, MEM_ATTRIB_WORD and MEM_ATTRIB_ALL of decodeaddr.h
abbrev pub attrib_read : ℕ
attrib_read = 1

abbrev pub attrib_word : ℕ
attrib_word = 32

abbrev pub attrib_all : ℕ
attrib_all = 0xffffffff

abbrev area : ℕ → ℕ → Bool → MemEntry
area a s v = record { addr = a; size = s; attrib = attrib_all; v1only = v }

-- `g_memareas`, without the entry of size 0 that ends it.
abbrev pub memareas : List MemEntry
memareas =
    area 0x00010000 (16 * 1024) false
    ∷ area 0x40010000 (16 * 1024) false
    ∷ area 0x04000000 (2 * 1024 * 1024) false
    ∷ area 0x44000000 (2 * 1024 * 1024) false
    ∷ area 0x08800000 (24 * 1024 * 1024) false
    ∷ area 0x48800000 (24 * 1024 * 1024) false
    ∷ area 0x88000000 (4 * 1024 * 1024) false
    ∷ area 0xA8000000 (4 * 1024 * 1024) false
    ∷ area 0x88400000 (4 * 1024 * 1024) true
    ∷ area 0xC8400000 (4 * 1024 * 1024) true
    ∷ area 0x88800000 (24 * 1024 * 1024) false
    ∷ area 0xA8800000 (24 * 1024 * 1024) false
    ∷ area 0xBFC00000 (1 * 1024 * 1024) false
    ∷ []

-- `g_protoff` and `g_isv1`.
pub record Access : Type 0 where
  pub protoff : Bool
  pub isv1 : Bool

abbrev pub contains : MemEntry → ℕ → Bool
contains e a = leb e.addr a && ltb a (e.addr + e.size)

-- What an area that contains the address leaves behind it.
abbrev pub left_in : Access → ℕ → ℕ → MemEntry → ℕ
left_in g a attrib e =
    if bit_and e.attrib attrib == attrib && (not e.v1only || g.isv1)
    then e.size - (a - e.addr)
    else 0

-- The loop over the areas, which stops at the first one that contains the address.
unfoldable pub size_left : Access → ℕ → ℕ → List MemEntry → ℕ
size_left g a attrib [] = 0
size_left g a attrib (e ∷ es) =
    if contains e a then left_in g a attrib e else size_left g a attrib es

-- `memValidate`
unfoldable pub mem_validate : Access → ℕ → ℕ → ℕ
mem_validate g a attrib =
    let size = size_left g a attrib memareas in if g.protoff && size == 0 then 4 else size

abbrev pub readable : ℕ
readable = 33

-- `deref_addr`: `none` where it returns 0.
unfoldable pub deref_addr : Access → Mem → ℕ → ℕ → Option ℕ
deref_addr g m val zero = some val
deref_addr g m val (suc deref) =
    let rest = deref_addr g m (lw m val) deref in
    if not (val % 4 == 0) then none else if ltb (mem_validate g val readable) 4 then none else rest
