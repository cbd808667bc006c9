-- ===== src/Desktop/Terminal/Tests.antt =====
-- kernel/desktop.c: a terminal with a command.
use sol_os.Base.{◌≡◌, refl, none, [], arith, length}
use sol_os.Desktop.Terminal.{Terminal}
use sol_os.Desktop.Terminal.Texts.{w_help}
use sol_os.Desktop.Terminal.Shell.{Readings, term_feed}
use sol_os.Desktop.Terminal.Bounds.{Fits, term_feed-Fits}

-- "help" was typed.
abbrev typed_help : Terminal
typed_help = record { lines = []; scroll = 0; input = w_help; cursor_col = 4 }

abbrev no_clock : Readings
no_clock = record { now = none; heap_used = 2048; heap_free = 4096 }

typed_help-Fits : Fits typed_help
unfolding Fits
typed_help-Fits = (omega arith, tt, omega arith, omega arith, omega arith)

term_feed-Fits_example : Fits (term_feed no_clock typed_help 10)
term_feed-Fits_example = term_feed-Fits no_clock typed_help 10 typed_help-Fits

three_lines : length (term_feed no_clock typed_help 10).lines ≡ 3
unfolding term_feed
three_lines = refl
