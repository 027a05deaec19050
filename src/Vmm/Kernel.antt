-- ===== src/Vmm/Kernel.antt =====
-- `KrInitKrnlAddrSpace` of Kernel/Source/Memory/Virtmemmgmt.c: the first two regions of the kernel.
use ych.Prelude.{
  Option, none, some, ℕ, ◌+◌, ◌%◌, ◌^◌, Bool, true, false, ltb, if◌then◌else◌, [], ◌∷◌,
}
use ych.Vmm.{Region, AddressSpace, put_link}

-- What the boot loader says of the image and of the frame buffer, `LoadInfo` and `FrameBufferInfo`.
pub record BootInfo : Type 0 where
  pub addr_virtual_base : ℕ
  pub reserve_size : ℕ
  pub fbuf_virtual : ℕ
  pub fbuf_size : ℕ

-- Static, readable, executable, of large pages
unfoldable pub binary_region : BootInfo → Region
binary_region b = record {
  vaddr_start = b.addr_virtual_base;
  vaddr_end = (b.addr_virtual_base + b.reserve_size) % 2 ^ 64;
  flags = 2 ^ 7 + 2 ^ 4 + 2 ^ 3 + 2 ^ 2;
}

-- Static, writable, of large pages. Its end is counted from the start of the image.
unfoldable pub frame_buffer_region : BootInfo → Region
frame_buffer_region b = record {
  vaddr_start = b.fbuf_virtual;
  vaddr_end = (b.addr_virtual_base + b.fbuf_size) % 2 ^ 64;
  flags = 2 ^ 7 + 2 ^ 5 + 2 ^ 2;
}

-- `nodes` are the two nodes that were acquired, the image's first, if they could be. `pPrev` of the
-- first and `pNext` of the last keep what the nodes hold.
unfoldable pub init_kernel_space : Option (ℕ × ℕ) → AddressSpace → BootInfo → AddressSpace × Bool
init_kernel_space nodes s b =
    let binary = binary_region b in
    let frame_buffer = frame_buffer_region b in
    let image_first = ltb b.addr_virtual_base b.fbuf_virtual in
    let regions = if image_first then binary ∷ frame_buffer ∷ [] else frame_buffer ∷ binary ∷ [] in
    elim nodes [
      | none ↦ (s, false)
      | some (image, frames) ↦
          let root = if image_first then image else frames in
          let tail = if image_first then frames else image in
          (
            record s {
              regions = regions;
              nodes = root ∷ tail ∷ [];
              links = record {
                prev = put_link s.links.prev tail root;
                next = put_link s.links.next root tail;
                root = root;
                tail = tail;
              };
              nr_regions = 2;
            },
            true,
          )
    ]
