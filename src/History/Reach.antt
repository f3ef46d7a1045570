-- ===== src/History/Reach.antt =====
-- The orders of all restaurants under any sequence of the operations that write them. `updateStatus`,
-- which sets a status past the rules, is a step only for an order that is not paid, and to another
-- status than PAID.
use bonapp.Base.{ℕ, ◌≡◌, false, Option, some, List, Bool, Result}
use bonapp.Database.{Prisma, Store, Order, OrderStatus, UserRole, ◌=ₒ◌}
use bonapp.Orders.Status.{change_status, update_status, of_order}
use bonapp.Orders.Pricing.{RequestedItem}
use bonapp.Orders.Kitchen.{update_kitchen_status}
use bonapp.Orders.Create.{Supply, create, create_guest_order, add_order_item}
use bonapp.Payments.Bepaid
use bonapp.Payments.Erip
use bonapp.Payments.Marked.{bepaid-keeps, erip-keeps}
use bonapp.Pos.Recovery
use bonapp.Pos.Recovery.{PosSetup, Answer}
use bonapp.History.Kept.{
  IsSound, paid-IsSound, change_status-IsSound, update_status-IsSound, kitchen-IsSound,
}
use bonapp.History.Added.{IsFresh, create-IsSound, create_guest_order-IsSound}
use bonapp.History.Touched.{add_order_item-IsSound, process-IsSound}

-- One operation, for whichever restaurant and with whatever arguments; the database gives an id that no
-- order has to each new one.
pub data Step (db : Prisma) (s : Store) : Store → Type 0 where
  status_changed :
      (tenant : Option ℕ) (id : ℕ) (status : OrderStatus) (now : ℕ)
      → Step db s (change_status db tenant id status now s).1
  -- `updateStatus`, where the order that it finds is not paid, to another status than PAID
  status_set :
      (t id : ℕ) (status : OrderStatus)
      → (status =ₒ OrderStatus.paid) ≡ false
      → ((o : Order) → db.find_first (of_order id t) s.orders ≡ some o → o.is_paid ≡ false)
      → Step db s (update_status db (some t) id status s).1
  kitchen_moved :
      (tenant : Option ℕ) (id : ℕ) (status : Option OrderStatus) (department : Option ℕ) (user : ℕ)
      (role : UserRole)
      → Step db s (update_kitchen_status db tenant id status department user role s).1
  staff_created :
      (u : Supply) (t table : ℕ) (phone : Option (List ℕ)) (requested : List RequestedItem)
      → IsFresh u.order_id s.orders
      → Step db s (create db u (some t) table phone requested s).1
  guest_created :
      (u : Supply) (t table : ℕ) (requested : List RequestedItem) (comment : ℕ) (session : Option ℕ)
      → IsFresh u.order_id s.orders
      → Step db s (create_guest_order db u t table requested comment session s).1
  item_added :
      (new_id id item quantity t table : ℕ)
      → Step db s (add_order_item db new_id id item quantity t table s).1
  bepaid_noticed : (t now : ℕ) (n : Bepaid.Notice) → Step db s (Bepaid.process db t now n s).1
  erip_noticed :
      (configured : Bool) (get : ℕ → Result Erip.Verified) (t now : ℕ) (n : Erip.Notice)
      → Step db s (Erip.process db configured get t now n s).1
  pos_submitted :
      (pos_item : ℕ → Option ℕ) (answer : Order → Answer) (setup : PosSetup) (now t id : ℕ)
      → Step db s (Recovery.process db pos_item answer setup now t id s).1
  -- a request that leaves the orders as they are
  elsewhere : {s' : Store} → s'.orders ≡ s.orders → Step db s s'

pub data Reach (db : Prisma) (s : Store) : Store → Type 0 where
  here : Reach db s s
  next : {s' s'' : Store} → Reach db s s' → Step db s' s'' → Reach db s s''

Step-IsSound : (db : Prisma) {s s' : Store} → Step db s s' → IsSound s.orders → IsSound s'.orders
Step-IsSound db {s} (status_changed tenant id status now) h =
    change_status-IsSound db tenant id status now s h
Step-IsSound db {s} (status_set t id status ne unpaid) h =
    update_status-IsSound db t id status s ne unpaid h
Step-IsSound db {s} (kitchen_moved tenant id status department user role) h =
    kitchen-IsSound db tenant id status department user role s h
Step-IsSound db {s} (staff_created u t table phone requested fresh) h =
    create-IsSound db u t table phone requested s fresh h
Step-IsSound db {s} (guest_created u t table requested comment session fresh) h =
    create_guest_order-IsSound db u t table requested comment session s fresh h
Step-IsSound db {s} (item_added new_id id item quantity t table) h =
    add_order_item-IsSound db new_id id item quantity t table s h
Step-IsSound db {s} (bepaid_noticed t now n) h =
    bepaid-keeps db t now IsSound (paid-IsSound t now) n s h
Step-IsSound db {s} (erip_noticed configured get t now n) h =
    erip-keeps db t now IsSound (paid-IsSound t now) configured get n s h
Step-IsSound db {s} (pos_submitted pos_item answer setup now t id) h =
    process-IsSound db pos_item answer now t setup id s h
Step-IsSound db (elsewhere same) h = rw same h

-- From orders with unique ids, each of which has status PAID exactly when it is marked as paid, every
-- sequence of requests of `changeStatus`, steps of the kitchen, new orders and items, notifications of
-- bePaid and ERIP, submissions to the POS, and requests that leave the orders alone leads to such
-- orders, where each new order gets an id that is free. `updateStatus` may occur in the sequence only
-- where the order that it finds is not paid, and for another status than PAID.
pub Reach-IsSound :
    (db : Prisma) {s s' : Store} → IsSound s.orders → Reach db s s' → IsSound s'.orders
Reach-IsSound db h here = h
Reach-IsSound db h (next r st) = Step-IsSound db st (Reach-IsSound db h r)
