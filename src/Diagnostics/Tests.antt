-- ===== src/Diagnostics/Tests.antt =====
-- Runs of the parser of diagnostics.
use gopoke.Base.{some, arith, ◌≡◌, refl, [], ◌∷◌, ◌++◌}
use gopoke.Text.{Text, codes, trim_space, has_prefix}
use gopoke.Diagnostics.Laws.{printed, compile_line-printed}
use gopoke.Text.Decimal.{format}
use gopoke.Text.Lines.{newline}
use gopoke.Diagnostics.{compile, panic, compile_line, parse_all}

abbrev stderr : Text
stderr =
    codes "./a.go:12:3: undefined: x"
    ++ newline ∷ codes "panic: boom"
    ++ newline ∷ codes "\t/p/main.go:7 +0x1d"

both_found :
    parse_all stderr
    ≡ record {
      kind = compile;
      file = codes "./a.go";
      line = 12;
      column = 3;
      message = codes "undefined: x";
      raw = codes "./a.go:12:3: undefined: x";
    }
      ∷ record {
        kind = panic;
        file = codes "/p/main.go";
        line = 7;
        column = 1;
        message = codes "boom";
        raw = codes "\t/p/main.go:7 +0x1d";
      }
      ∷ []
unfolding parse_all trim_space has_prefix
both_found = refl

blank_name :
    parse_all (codes "  .go:3")
    ≡ record {
      kind = panic;
      file = codes " .go";
      line = 3;
      column = 1;
      message = codes "runtime panic";
      raw = codes "  .go:3";
    }
      ∷ []
unfolding parse_all trim_space has_prefix
blank_name = refl

compile_line-printed_example :
    compile_line (printed (codes "./a.go") 12 3 (codes "undefined: x"))
    ≡ some (record {
      kind = compile;
      file = codes "./a.go";
      line = 12;
      column = 3;
      message = trim_space (codes "undefined: x");
      raw = printed (codes "./a.go") 12 3 (codes "undefined: x");
    })
unfolding has_prefix trim_space format
compile_line-printed_example =
    compile_line-printed (codes "./a.go") 12 3 (codes "undefined: x") refl refl (omega arith)
      (omega arith) (omega arith) (omega arith) refl
