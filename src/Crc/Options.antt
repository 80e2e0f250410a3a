-- ===== src/Crc/Options.antt =====
-- The options B to E of src/c/util/rastacrc.c are usable as they are set up.
use librasta.Base.{ℕ, ◌≡◌, refl, List, length, arith}
use librasta.Crc.{crc_init_opt_b, crc_init_opt_c, crc_init_opt_d, crc_init_opt_e}
use librasta.Crc.Table.{IsReady}

pub crc_init_opt_b-IsReady : (table : List ℕ) → length table ≡ 256 → IsReady (crc_init_opt_b table)
crc_init_opt_b-IsReady table room = record {
  formed = record {
    byte_wide = omega arith;
    word_wide = omega arith;
    polynom_fits = omega arith;
    initial_fits = omega arith;
    final_fits = omega arith;
    mask_lem = refl;
    high_bit_lem = refl;
    room = room;
  };
  generated = λ g. absurd (cc g);
}

pub crc_init_opt_c-IsReady : (table : List ℕ) → length table ≡ 256 → IsReady (crc_init_opt_c table)
crc_init_opt_c-IsReady table room = record {
  formed = record {
    byte_wide = omega arith;
    word_wide = omega arith;
    polynom_fits = omega arith;
    initial_fits = omega arith;
    final_fits = omega arith;
    mask_lem = refl;
    high_bit_lem = refl;
    room = room;
  };
  generated = λ g. absurd (cc g);
}

pub crc_init_opt_d-IsReady : (table : List ℕ) → length table ≡ 256 → IsReady (crc_init_opt_d table)
crc_init_opt_d-IsReady table room = record {
  formed = record {
    byte_wide = omega arith;
    word_wide = omega arith;
    polynom_fits = omega arith;
    initial_fits = omega arith;
    final_fits = omega arith;
    mask_lem = refl;
    high_bit_lem = refl;
    room = room;
  };
  generated = λ g. absurd (cc g);
}

pub crc_init_opt_e-IsReady : (table : List ℕ) → length table ≡ 256 → IsReady (crc_init_opt_e table)
crc_init_opt_e-IsReady table room = record {
  formed = record {
    byte_wide = omega arith;
    word_wide = omega arith;
    polynom_fits = omega arith;
    initial_fits = omega arith;
    final_fits = omega arith;
    mask_lem = refl;
    high_bit_lem = refl;
    room = room;
  };
  generated = λ g. absurd (cc g);
}
