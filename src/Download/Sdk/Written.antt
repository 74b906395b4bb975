-- ===== src/Download/Sdk/Written.antt =====
-- About the download of internal/download/gosdk.go.
use gopoke.Base.{
  ℕ, ◌+◌, ◌≤◌, ◌≡◌, refl, ap, ◌∙◌, Bool, true, false, Option, none, some, List, [], ◌∷◌, ◌++◌, All,
  length, length-append, CtxError, if◌then◌else◌, arith,
}
use gopoke.Base.Int.{ℤ}
use gopoke.Text.{Text}
use gopoke.Download.Progress.{Progress}
use gopoke.Download.Sdk.{
  Round, ReadEnd, more, eof, read_error, done, stopped, write_failed, Received, nothing_more,
  after_read, after_bytes, with_bytes, alive_round, receive,
}

abbrev body_end : ReadEnd → List ℕ → List ℕ
body_end more rest = rest
body_end eof rest = []
body_end read_error rest = []

-- The bytes of the response's body, up to its end.
abbrev pub body : List Round → List ℕ
body [] = []
body (r ∷ rs) = r.bytes ++ body_end r.read_end (body rs)

-- The content is the body, and no event counts more than its bytes.
pub record Agrees (received : ℕ) (bytes : List ℕ) (d : Received) : Type 0 where
  pub content : d.content ≡ bytes
  pub counted : All (λ e. e.bytes_received ≤ received + length bytes) d.events

weaken_counted :
    (a b : ℕ) (es : List Progress)
    → a ≤ b
    → All (λ e. e.bytes_received ≤ a) es
    → All (λ e. e.bytes_received ≤ b) es
weaken_counted a b [] h c = tt
weaken_counted a b (e ∷ es) h c = (omega (arith, c.0), weaken_counted a b es h c.1)

after_read-Agrees :
    (n : ℕ) (t : ReadEnd) (bytes : List ℕ) (rest : Received)
    → (rest.ending ≡ done → Agrees n bytes rest)
    → (after_read t rest).ending ≡ done
    → Agrees n (body_end t bytes) (after_read t rest)
after_read-Agrees n more bytes rest f h = f h
after_read-Agrees n eof bytes rest f h = record { content = refl; counted = tt }
after_read-Agrees n read_error bytes rest f h = absurd (cc h)

-- The bytes of a round come before the rest, which counts them already.
total_le : (n : ℕ) (a b : List ℕ) → (n + length a) + length b ≤ n + length (a ++ b)
total_le n a b = omega (arith, length-append a b)

with_bytes-Agrees :
    (message : Text) (total : ℤ) (n : ℕ) (r : Round) (rest : Received) (tail bs : List ℕ)
    → bs ≡ r.bytes
    → (rest.ending ≡ done → Agrees (n + length r.bytes) tail rest)
    → (with_bytes message total n bs r rest).ending ≡ done
    → Agrees n (r.bytes ++ body_end r.read_end tail) (with_bytes message total n bs r rest)
with_bytes-Agrees message total n r rest tail [] e f h =
    let a = after_read-Agrees (n + length r.bytes) r.read_end tail rest f h in
    record {
      content = a.content ∙ ap (λ bs. bs ++ body_end r.read_end tail) e;
      counted = weaken_counted _ _ _ (total_le n r.bytes (body_end r.read_end tail)) a.counted;
    }
with_bytes-Agrees message total n r rest tail (b ∷ bs) e f h = go r.write_ok h
  where
    go :
        (w : Bool)
        → (if w
            then after_bytes message total n r rest
            else nothing_more (stopped write_failed)).ending
          ≡ done
        → Agrees n
            (r.bytes ++ body_end r.read_end tail)
            (if w then after_bytes message total n r rest else nothing_more (stopped write_failed))
    go false k = absurd (cc k)
    go true k =
        let a = after_read-Agrees (n + length r.bytes) r.read_end tail rest f k in
        record {
          content = ap (λ bs. r.bytes ++ bs) a.content;
          counted = (
            omega (arith, length-append r.bytes (body_end r.read_end tail)),
            weaken_counted _ _ _ (total_le n r.bytes (body_end r.read_end tail)) a.counted,
          );
        }

alive-Agrees :
    (message : Text) (total : ℤ) (n : ℕ) (r : Round) (rest : Received) (tail : List ℕ)
    (ctx : Option CtxError)
    → (rest.ending ≡ done → Agrees (n + length r.bytes) tail rest)
    → (alive_round message total n r ctx rest).ending ≡ done
    → Agrees n (r.bytes ++ body_end r.read_end tail) (alive_round message total n r ctx rest)
alive-Agrees message total n r rest tail (some e) f h = absurd (cc h)
alive-Agrees message total n r rest tail none f h =
    with_bytes-Agrees message total n r rest tail r.bytes refl f h

-- When the loop comes to the end of the response, the temporary file holds the body, whatever the
-- sizes of the reads, and no progress event has counted more bytes than that.
pub receive-body :
    (message : Text) (total : ℤ) (received : ℕ) (rs : List Round)
    → (receive message total received rs).ending ≡ done
    → Agrees received (body rs) (receive message total received rs)
unfolding receive
receive-body message total received [] h = absurd (cc h)
receive-body message total received (r ∷ rs) h =
    alive-Agrees message total received r _ (body rs) r.ctx
      (receive-body message total (received + length r.bytes) rs) h
