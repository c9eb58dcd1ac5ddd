-- ===== src/Drivers/Video/Sample.antt =====
-- The screen of the tests: a line of 1024 pixels, 768 lines, and a font below the frame buffer.
use kess_os.Ram.{Ram}
use kess_os.Drivers.Video.{Canvas}

abbrev pub screen : Canvas
screen = record {
  x = 0;
  y = 55;
  prev_x = 0;
  lfb = record {
    base_addr = 0x80000000;
    buffer_size = 3145728;
    width = 1024;
    height = 768;
    ppsl = 1024;
  };
  font = record {
    header = record { magic0 = 0x36; magic1 = 0x04; mode = 0; chsize = 16 };
    glyph_buffer = 0x5000;
  };
}

abbrev pub zeros : Ram
zeros x = 0
