-- ===== src/Zebra/Cgi/Pipes/Relay.antt =====
-- What goes through the pipes arrives whole and in order.
use telebra.Base.{
  List, ℕ, suc, ◌+◌, ◌≤◌, ◌<◌, ◌≡◌, refl, sym, ap, ◌∙◌, false, [], ◌∷◌, ◌++◌, append_assoc,
  append-nil, arith, Bytes, length, length-append,
}
use telebra.Web.File.Content.{joined, joined-concat}
use telebra.Zebra.Cgi.Pipes.{
  Server, copying, finished, killed, Cgi, forked, Run, begins, copies, repeats, signalled,
  copied_all, relays, ends, child_reads, child_writes, child_exits,
}

-- How many bytes of the content are still to copy.
abbrev pub left : Server → ℕ
left (copying n) = n
left _ = 0

-- Each byte by itself.
abbrev pub singles : Bytes → List Bytes
singles [] = []
singles (b ∷ bs) = (b ∷ []) ∷ singles bs

singles-concat : (bs : Bytes) (b : ℕ) → singles (bs ++ b ∷ []) ≡ singles bs ++ (b ∷ []) ∷ []
singles-concat [] b = refl
singles-concat (c ∷ bs) b = ap (λ l. (c ∷ []) ∷ l) (singles-concat bs b)

abbrev Fed : ℕ → Bytes → Server → Type 0
Fed n copied killed = Unit
Fed n copied s = length copied + left s ≡ n

pub record Inv (n : ℕ) (input copied taken written : Bytes) (s : Cgi) : Type 0 where
  pub in_order : copied ≡ taken ++ s.cgi_input
  pub out_order : written ≡ joined s.sent ++ s.cgi_output
  pub cut : s.sent ≡ singles (joined s.sent)
  pub fed : Fed n copied s.server
  pub received : n ≤ length input → copied ++ s.input ≡ input
  pub drained : s.server ≡ finished → (s.cgi_output ≡ []) × (s.alive ≡ false)

Run-Inv :
    {capacity n last : ℕ} {input copied taken written : Bytes} {s : Cgi}
    → Run capacity (forked n input last) copied taken written s
    → Inv n input copied taken written s
Run-Inv begins = record {
  in_order = refl;
  out_order = refl;
  cut = refl;
  fed = omega arith;
  received = λ le. refl;
  drained = λ e. cc;
}
Run-Inv {n} {input} (copies {copied} {taken} {written} {s} m b rest r e i a room) =
    let v = Run-Inv r in
    let f : length copied + suc m ≡ n = rw e at v.fed in
    record {
      in_order = ap (λ l. l ++ b ∷ []) v.in_order ∙ append_assoc taken s.cgi_input (b ∷ []);
      out_order = v.out_order;
      cut = v.cut;
      fed = omega (arith, f, length-append copied (b ∷ []));
      received =
          λ le. append_assoc copied (b ∷ []) rest ∙ ap (λ l. copied ++ l) (sym i) ∙ v.received le;
      drained = λ x. cc;
    }
Run-Inv {n} {input} (repeats {copied} {taken} {written} {s} m r e i a room) =
    let v = Run-Inv r in
    let f : length copied + suc m ≡ n = rw e at v.fed in
    record {
      in_order =
          ap (λ l. l ++ s.last ∷ []) v.in_order ∙ append_assoc taken s.cgi_input (s.last ∷ []);
      out_order = v.out_order;
      cut = v.cut;
      fed = omega (arith, f, length-append copied (s.last ∷ []));
      received = λ le. absurd (
          omega (
            arith,
            f,
            le,
            ap length (v.received le),
            ap (λ l. length (copied ++ l)) i,
            ap length (append-nil copied),
          ));
      drained = λ x. cc;
    }
Run-Inv (signalled m r e a) =
    let v = Run-Inv r in
    record {
      in_order = v.in_order;
      out_order = v.out_order;
      cut = v.cut;
      fed = tt;
      received = v.received;
      drained = λ x. cc;
    }
Run-Inv (copied_all r e) =
    let v = Run-Inv r in
    record {
      in_order = v.in_order;
      out_order = v.out_order;
      cut = v.cut;
      fed = rw e at v.fed;
      received = v.received;
      drained = λ x. cc;
    }
Run-Inv (relays {copied} {taken} {written} {s} b rest r e o) =
    let v = Run-Inv r in
    record {
      in_order = v.in_order;
      out_order =
          v.out_order
          ∙ ap (λ l. joined s.sent ++ l) o
          ∙ sym (append_assoc (joined s.sent) (b ∷ []) rest)
          ∙ ap (λ l. l ++ rest) (sym (joined-concat s.sent (b ∷ [])));
      cut =
          ap (λ l. l ++ (b ∷ []) ∷ []) v.cut
          ∙ sym (singles-concat (joined s.sent) b)
          ∙ ap singles (sym (joined-concat s.sent (b ∷ [])));
      fed = v.fed;
      received = v.received;
      drained = λ x. cc;
    }
Run-Inv (ends r e o a) =
    let v = Run-Inv r in
    record {
      in_order = v.in_order;
      out_order = v.out_order;
      cut = v.cut;
      fed = rw e at v.fed;
      received = v.received;
      drained = λ x. (o, a);
    }
Run-Inv (child_reads {copied} {taken} {written} {s} b rest r a i) =
    let v = Run-Inv r in
    record {
      in_order = v.in_order ∙ ap (λ l. taken ++ l) i ∙ sym (append_assoc taken (b ∷ []) rest);
      out_order = v.out_order;
      cut = v.cut;
      fed = v.fed;
      received = v.received;
      drained = v.drained;
    }
Run-Inv (child_writes {copied} {taken} {written} {s} b r a room) =
    let v = Run-Inv r in
    record {
      in_order = v.in_order;
      out_order =
          ap (λ l. l ++ b ∷ []) v.out_order ∙ append_assoc (joined s.sent) s.cgi_output (b ∷ []);
      cut = v.cut;
      fed = v.fed;
      received = v.received;
      drained = λ x. let (o, dead) = v.drained x in cc;
    }
Run-Inv (child_exits r a) =
    let v = Run-Inv r in
    record {
      in_order = v.in_order;
      out_order = v.out_order;
      cut = v.cut;
      fed = v.fed;
      received = v.received;
      drained = λ x. ((v.drained x).0, refl);
    }

-- However the server and the script take turns, for content of which the client sends as many bytes
-- as the content length says: when the server is done with the script, the client got exactly the
-- bytes that the script wrote, in order, each in a `send` of its own; and the script has read a first
-- part of the content, in order.
pub Run-relayed :
    {capacity n last : ℕ} {input copied taken written : Bytes} {s : Cgi}
    → Run capacity (forked n input last) copied taken written s
    → s.server ≡ finished
    → n ≤ length input
    → (s.sent ≡ singles written)
      × (unread : Bytes) × (taken ++ unread ++ s.input ≡ input)
      × (length (taken ++ unread) ≡ n)
Run-relayed {capacity} {n} {last} {input} {copied} {taken} {written} {s} r e le =
    let v = Run-Inv r in
    let f : length copied + 0 ≡ n = rw e at v.fed in
    let all : joined s.sent ≡ written =
      sym
        (v.out_order ∙ ap (λ l. joined s.sent ++ l) (v.drained e).0 ∙ append-nil (joined s.sent)) in
    (
      v.cut ∙ ap singles all,
      s.cgi_input,
      ap (λ l. l ++ s.input) (sym v.in_order) ∙ v.received le,
      omega (arith, f, ap length v.in_order),
    )

-- The content is not longer than what a pipe takes: then whatever the script does, the server is
-- never held up while it copies the content.
pub Run-room :
    {capacity n last m : ℕ} {input copied taken written : Bytes} {s : Cgi}
    → Run capacity (forked n input last) copied taken written s
    → n ≤ capacity
    → s.server ≡ copying (suc m)
    → length s.cgi_input < capacity
Run-room {capacity} {n} {last} {m} {input} {copied} {taken} {written} {s} r le e =
    let v = Run-Inv r in
    let f : length copied + suc m ≡ n = rw e at v.fed in
    omega (arith, f, le, ap length v.in_order, length-append taken s.cgi_input)
