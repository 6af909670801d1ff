-- ===== src/RecordSet/Order.antt =====
-- `Record::operator<` of tools/detect.cc as the order of a std::set.
use racez.Base.{false, ◌≡◌, arith, not, ◌&&◌, ◌||◌, ◌^◌, ◌<◌}
use racez.Record.{Record}
use racez.RecordSet.{record_lt}

-- `operator<` is a strict weak order, as std::set demands: it is irreflexive and transitive, and so
-- is the relation that neither of two records comes first.
pub record_lt_order :
    (a b c : Record)
    → a.record_no < 2 ^ 32
    → b.record_no < 2 ^ 32
    → c.record_no < 2 ^ 32
    → (record_lt a a ≡ false)
      × ((record_lt a b && record_lt b c && not (record_lt a c)) ≡ false)
      × ((not (record_lt a b || record_lt b a)
            && not (record_lt b c || record_lt c b)
            && (record_lt a c || record_lt c a))
          ≡ false)
unfolding record_lt
record_lt_order a b c ha hb hc = ground arith
