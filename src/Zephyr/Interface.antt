-- ===== src/Zephyr/Interface.antt =====
-- The socket, the interface and the packets of the transport that sends through an interface.
use ul_ecat.Common.{
  ℕ, ◌≡◌, refl, ap, ◌∙◌, List, [], ◌∷◌, Option, none, some, Bool, true, false, length,
}
use ul_ecat.Master.Lifecycle.Sockets.{without, with_opened, owned, without_own, with_opened-owned}
use ul_ecat.Posix.Counted.{is_held}
use ul_ecat.Zephyr.{
  Net, Netdev, netdev_bound, netdev_socket, netdev_interface, netdev_index, netdev_open,
  netdev_close, pkt_written, pkt_allocated, sent_through, netdev_send,
}

-- The sockets that are open, and the packets that were allocated and neither released nor queued.
pub record Taken : Type 0 where
  pub sockets : List ℕ
  pub packets : List ℕ

abbrev pub counting : {W : Type 0} → Net W → Net (W × Taken)
counting n = record {
  if_by_name = λ s name. (((n.if_by_name s.0 name).0, s.1), (n.if_by_name s.0 name).1);
  if_by_index = λ s i. (((n.if_by_index s.0 i).0, s.1), (n.if_by_index s.0 i).1);
  socket = λ s. (
    ((n.socket s.0).0, record s.1 { sockets = with_opened (n.socket s.0).1 s.1.sockets }),
    (n.socket s.0).1,
  );
  bind = λ s fd i. (((n.bind s.0 fd i).0, s.1), (n.bind s.0 fd i).1);
  close = λ s fd. (n.close s.0 fd, record s.1 { sockets = without fd s.1.sockets });
  poll = λ s fd ms. (((n.poll s.0 fd ms).0, s.1), (n.poll s.0 fd ms).1);
  send = λ s fd bytes. (((n.send s.0 fd bytes).0, s.1), (n.send s.0 fd bytes).1);
  recv = λ s fd room. (((n.recv s.0 fd room).0, s.1), (n.recv s.0 fd room).1);
  pkt_alloc = λ s netif len. (
    (
      (n.pkt_alloc s.0 netif len).0,
      record s.1 { packets = with_opened (n.pkt_alloc s.0 netif len).1 s.1.packets },
    ),
    (n.pkt_alloc s.0 netif len).1,
  );
  pkt_write = λ s pkt bytes. (((n.pkt_write s.0 pkt bytes).0, s.1), (n.pkt_write s.0 pkt bytes).1);
  pkt_unref = λ s pkt. (n.pkt_unref s.0 pkt, record s.1 { packets = without pkt s.1.packets });
  queue_tx =
      λ s netif pkt. (n.queue_tx s.0 netif pkt, record s.1 { packets = without pkt s.1.packets });
}

-- The user holds the socket `fd`: it is the one that is open, the interface is set exactly while
-- there is one, and no packet is left.
pub record IsTidy {W : Type 0} (d : Netdev (W × Taken)) (fd : Option ℕ) : Type 0 where
  pub sockets : d.world.1.sockets ≡ owned fd
  pub netif : is_held d.netif ≡ is_held fd
  pub packets : d.world.1.packets ≡ []

module _ {W : Type 0} (n : Net W) where
  netdev_bound-IsTidy :
      (d : Netdev (W × Taken)) (s netif : ℕ) (w : W × Taken) (b : Bool)
      → d.netif ≡ some netif
      → w.1.sockets ≡ s ∷ []
      → w.1.packets ≡ []
      → IsTidy (netdev_bound (counting n) d s (w, b)).0 (netdev_bound (counting n) d s (w, b)).1
  unfolding netdev_bound
  netdev_bound-IsTidy d s netif w false i e p = record {
    sockets = without_own s w.1.sockets e;
    netif = refl;
    packets = p;
  }
  netdev_bound-IsTidy d s netif w true i e p = record {
    sockets = e;
    netif = ap is_held i;
    packets = p;
  }

  netdev_socket-IsTidy :
      (d : Netdev (W × Taken)) (ifindex netif : ℕ) (w : W × Taken) (fd : Option ℕ)
      → d.netif ≡ some netif
      → w.1.sockets ≡ owned fd
      → w.1.packets ≡ []
      → IsTidy
          (netdev_socket (counting n) d ifindex (w, fd)).0
          (netdev_socket (counting n) d ifindex (w, fd)).1
  unfolding netdev_socket
  netdev_socket-IsTidy d ifindex netif w none i e p = record {
    sockets = e;
    netif = refl;
    packets = p;
  }
  netdev_socket-IsTidy d ifindex netif w (some s) i e p =
      netdev_bound-IsTidy (record d { world = w }) s netif ((counting n).bind w s ifindex).0
        (n.bind w.0 s ifindex).1 i e p

  netdev_interface-IsTidy :
      (ifindex : ℕ) (w : W × Taken) (i : Option ℕ)
      → w.1.sockets ≡ []
      → w.1.packets ≡ []
      → IsTidy
          (netdev_interface (counting n) ifindex (w, i)).0
          (netdev_interface (counting n) ifindex (w, i)).1
  unfolding netdev_interface
  netdev_interface-IsTidy ifindex w none e p = record { sockets = e; netif = refl; packets = p }
  netdev_interface-IsTidy ifindex w (some netif) e p =
      netdev_socket-IsTidy (record { world = w; netif = some netif }) ifindex netif
        ((counting n).socket w).0 (n.socket w.0).1 refl
        (with_opened-owned (n.socket w.0).1 w.1.sockets e) p

  netdev_index-IsTidy :
      (d : Netdev (W × Taken)) (w : W × Taken) (i : Option ℕ)
      → is_held d.netif ≡ false
      → w.1.sockets ≡ []
      → w.1.packets ≡ []
      → IsTidy (netdev_index (counting n) d (w, i)).0 (netdev_index (counting n) d (w, i)).1
  unfolding netdev_index
  netdev_index-IsTidy d w none f e p = record { sockets = e; netif = f; packets = p }
  netdev_index-IsTidy d w (some ifindex) f e p =
      netdev_interface-IsTidy ifindex ((counting n).if_by_index w ifindex).0
        (n.if_by_index w.0 ifindex).1 e p

  netdev_open-IsTidy :
      (d : Netdev (W × Taken)) (ifname : List ℕ)
      → IsTidy d none
      → IsTidy (netdev_open (counting n) d ifname).0 (netdev_open (counting n) d ifname).1
  unfolding netdev_open
  netdev_open-IsTidy d ifname h =
      netdev_index-IsTidy d ((counting n).if_by_name d.world ifname).0
        (n.if_by_name d.world.0 ifname).1 h.netif h.sockets h.packets

  netdev_close-IsTidy :
      (d : Netdev (W × Taken)) (fd : ℕ)
      → IsTidy d (some fd)
      → IsTidy (netdev_close (counting n) d fd) none
  unfolding netdev_close
  netdev_close-IsTidy d fd h = record {
    sockets = without_own fd d.world.1.sockets h.sockets;
    netif = refl;
    packets = h.packets;
  }

  -- A send leaves the sockets and, allocated or not, no packet.
  abbrev Sent : List ℕ → (W × Taken) × Bool → Type 0
  Sent held r = (r.0.1.sockets ≡ held) × (r.0.1.packets ≡ [])

  pkt_written-Sent :
      (netif pkt : ℕ) (w : W × Taken) (b : Bool)
      → w.1.packets ≡ pkt ∷ []
      → Sent w.1.sockets (pkt_written (counting n) netif pkt (w, b))
  unfolding pkt_written
  pkt_written-Sent netif pkt w false e = (refl, without_own pkt w.1.packets e)
  pkt_written-Sent netif pkt w true e = (refl, without_own pkt w.1.packets e)

  pkt_allocated-Sent :
      (netif : ℕ) (bytes : List ℕ) (w : W × Taken) (o : Option ℕ)
      → w.1.packets ≡ owned o
      → Sent w.1.sockets (pkt_allocated (counting n) netif bytes (w, o))
  unfolding pkt_allocated
  pkt_allocated-Sent netif bytes w none e = (refl, e)
  pkt_allocated-Sent netif bytes w (some pkt) e =
      pkt_written-Sent netif pkt ((counting n).pkt_write w pkt bytes).0
        (n.pkt_write w.0 pkt bytes).1 e

  sent_through-Sent :
      (d : Netdev (W × Taken)) (bytes : List ℕ) (netif : Option ℕ)
      → d.world.1.packets ≡ []
      → Sent d.world.1.sockets (sent_through (counting n) d bytes netif)
  unfolding sent_through
  sent_through-Sent d bytes none e = (refl, e)
  sent_through-Sent d bytes (some netif) e =
      pkt_allocated-Sent netif bytes ((counting n).pkt_alloc d.world netif (length bytes)).0
        (n.pkt_alloc d.world.0 netif (length bytes)).1
        (with_opened-owned (n.pkt_alloc d.world.0 netif (length bytes)).1 d.world.1.packets e)

  netdev_send-IsTidy :
      (d : Netdev (W × Taken)) (bytes : List ℕ) (fd : Option ℕ)
      → IsTidy d fd
      → IsTidy (netdev_send (counting n) d bytes).0 fd
  unfolding netdev_send
  netdev_send-IsTidy d bytes fd h =
      let sent = sent_through-Sent d bytes d.netif h.packets in
      record { sockets = sent.0 ∙ h.sockets; netif = h.netif; packets = sent.1 }

-- The transport is opened while it is closed, closed while it is open, and asked to send at any time.
pub data Uses {W : Type 0} (n : Net W) (d : Netdev (W × Taken))
    : Netdev (W × Taken) → Option ℕ → Type 0 where
  idle : Uses n d d none
  opens :
      {e : Netdev (W × Taken)} (ifname : List ℕ)
      → Uses n d e none
      → Uses n d (netdev_open (counting n) e ifname).0 (netdev_open (counting n) e ifname).1
  closes :
      {e : Netdev (W × Taken)} {fd : ℕ}
      → Uses n d e (some fd)
      → Uses n d (netdev_close (counting n) e fd) none
  sends :
      {e : Netdev (W × Taken)} {fd : Option ℕ} (bytes : List ℕ)
      → Uses n d e fd
      → Uses n d (netdev_send (counting n) e bytes).0 fd

-- Whichever calls of the kernel fail: the socket that is open is exactly the one that the user holds,
-- the interface is set exactly while there is one, and every packet that a send allocated was
-- released or queued.
pub Uses-IsTidy :
    {W : Type 0} (n : Net W) {d e : Netdev (W × Taken)} {fd : Option ℕ}
    → IsTidy d none
    → Uses n d e fd
    → IsTidy e fd
Uses-IsTidy n h idle = h
Uses-IsTidy n h (opens ifname u) = netdev_open-IsTidy n _ ifname (Uses-IsTidy n h u)
Uses-IsTidy n h (closes u) = netdev_close-IsTidy n _ _ (Uses-IsTidy n h u)
Uses-IsTidy n h (sends bytes u) = netdev_send-IsTidy n _ bytes _ (Uses-IsTidy n h u)
