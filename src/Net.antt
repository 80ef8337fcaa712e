-- ===== src/Net.antt =====
-- The network core of green_turtle/net.
pub mod TimerQueue
pub mod SocketOption
pub mod EventHandler
pub mod BufferedSocket
pub mod Poller
pub mod PollPoller
pub mod EpollPoller
pub mod KqueuePoller
pub mod ConnManager
pub mod Balance
pub mod IoLoop
pub mod EventLoop
pub mod TcpAcceptor
pub mod Message
pub mod Descriptors
