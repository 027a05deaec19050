-- ===== src/Physmem/Address.antt =====
-- Page ids and physical addresses.
use ych.Prelude.{ℕ, ◌*◌, ◌%◌, ◌^◌, ◌≤◌, ◌≡◌, true, arith}
use ych.Physmem.{Pmm, page_size, is_valid_page_id, page_address, page_id}

-- For a valid page whose address is not above the highest one, going to the address and back
-- gives the page's id modulo 2 ^ 20: the product is taken on 32 bits, so only pages below 4 GiB
-- come back as themselves.
pub page_id-page_address :
    (s : Pmm) (page : ℕ)
    → is_valid_page_id s page ≡ true
    → page * page_size ≤ s.paddr_highest
    → page_id s (page_address s page) ≡ page % 2 ^ 20
unfolding page_id page_address
page_id-page_address s page h b = ground arith
