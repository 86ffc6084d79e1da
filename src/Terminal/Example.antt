-- ===== src/Terminal/Example.antt =====
-- A terminal of 40 by 10 characters, for the tests.
use korby_os.Base.{false, [], replicate, arith}
use korby_os.Terminal.{Terminal}
use korby_os.Terminal.Print.{Grid}

abbrev pub cleared : Terminal
cleared = record {
  horizontal = 640;
  vertical = 320;
  width = 40;
  height = 10;
  cursor_x = 39;
  cursor_y = 9;
  drawn = [];
  typing = false;
  typing_start = 0;
  typing_current = 0;
  typing_buffer = replicate 128 0;
  left_shift = false;
  right_shift = false;
  shift = false;
  caps = false;
}

pub cleared-Grid : Grid cleared
cleared-Grid = record {
  wide = omega arith;
  high = omega arith;
  cells = omega arith;
  column = omega arith;
  row = omega arith;
  roomy = λ y e. omega (arith, e);
}
