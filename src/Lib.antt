-- ===== src/Lib.antt =====
-- A model of sqlalchemy-collectd, which reports the connection pools of SQLAlchemy programs to
-- collectd.
--
-- The parts and how they interact. In each process of a program the client's plugin listens to the
-- events of the pools (client/collector.py), keeps for each program name a target with the sets of
-- its connections, and a thread (client/worker.py) has a sender (client/sender.py) turn the counts
-- of every target into two `Values` objects at each interval. The packer of protocol.py writes
-- them as packets of collectd's binary protocol, and a UDP socket (networking.py) sends them. The
-- server, a collectd plugin, unpacks the packets (protocol.py), keeps the last object of every
-- process in buckets of time (server/receiver.py, stream.py) and, when collectd asks it to read
-- (server/plugin.py), sums the objects of a program or of a host, breaks the sums into objects of
-- one field (stream.py) and hands these to collectd. What collectd then writes goes out over UDP
-- to the monitors that ask (connmon/plugin.py). A monitor keeps the figures of each host and
-- program (connmon/stat.py) and draws them (connmon/display.py).
--
-- The files, with the source of each (paths from the repository's root).
--   Base: Python's dicts (insertion-ordered association lists), sets, generators, exceptions,
--     `sorted`, `groupby` and integers, and lemmas on them. An exception is `raise e` of `Result`,
--     a generator is the list of what it yields with the way it ends, and a method that
--     changes its object returns the new object with the result.
--   Number: the numbers of an object's `values`, int or float.
--   Protocol: sqlalchemy_collectd/protocol.py. `Types` has `Type` and the struct formats, `Bytes` the
--     headers, `Values` the class `Values`, `Packer` and `Unpacker` the classes of these names. The
--     loop of `_unpack_packet` is `Unpacker.unpack_loop`.
--   CollectdTypes: sqlalchemy_collectd/collectd_types.py.
--   Stream: sqlalchemy_collectd/stream.py, `TimeBucket` and `StreamTranslator`.
--   Server: sqlalchemy_collectd/server/receiver.py and, in `ReceiverQueue` and `Stats.read`,
--     server/plugin.py with the loop of sqlalchemy_collectd/util.py.
--   Client: sqlalchemy_collectd/client. `Collector`, `Sender` and `Worker` have the
--     source's names; `Client.Collector.handle` dispatches the events that `EngineCollector`
--     listens to.
--     `Worker.Threaded` is the loop of the thread while other threads add targets, where Python's
--     OrderedDict raises when its size has changed before a further entry is read.
--     `Plugin` is client/plugin.py: the arguments of an engine and `start_plugin`.
--   Network: sqlalchemy_collectd/networking.py, what the sockets and the queues keep. `Connections`
--     has the client's sockets, `Listeners` and `Endpoints` the server's sender and the receivers,
--     `Forwarding` the asynchronous senders.
--   Connmon: sqlalchemy_collectd/connmon. `HostProg` and `Stat` are stat.py, over numbers that are
--     not NaN (the record `Arithmetic`). `Forwarder` is the queue and `write` of plugin.py, with the
--     loop of sqlalchemy_collectd/util.py. Of display.py, `Markup` has the color codes in a text, `Render` the drawing of
--     one text, `Layout` the columns, and `Display` the screens, which refer to each other and stand
--     in a store, with the commands of the keyboard. `Timer` is
--     connmon/util.py.
--   Tests: the properties at concrete inputs.
--
-- Choices. Text is a list of code points, bytes are numbers below 256. A time is an integer number of
-- ticks of 2^-22 seconds, which holds every time that the protocol can carry (2^-30 seconds are cut by
-- a float of that size) and makes `int(t)` a division; an interval is an integer number of
-- seconds. `int(interval * 1.2)` is 6 * interval / 5 rounded down, which the float product agrees with
-- below 2^50. A float is its 64 bits, and the operations on floats are the fields of the record
-- `Floats`, a parameter; no theorem supposes more of them than its own binders say.
-- The loop of `_unpack_packet` runs on fuel, the length of the packet, which is enough
-- unless the packet has a part of length 0. All other loops are structural.
--
-- The widths of columns are shares in percent, `columns * 18 / 100` for `int(columns * 0.18)`, which
-- agree for every width below 200000. An argument of an engine is a text or a number.
--
-- The events of a pool come in the order that SQLAlchemy documents (`Client.Collector.Pool.Step`),
-- the checkin with `None` included that follows when a connection was invalidated in use. What a
-- sender of the worker raises beyond an `Exception`, and with what exception a call of `_render` ends, are
-- arguments of the rounds and of the characters. `sorted` on the keys of a bucket raises a TypeError
-- where two keys cannot be compared.
--
-- Not modelled: logging, the sockets, event loops, locks and threads themselves (the steps that they
-- make are sequences of calls), what curses does with the texts that it is given, the texts of the
-- rows of a screen, the command line of the monitor, the registration with collectd, and the docs
-- and tests.
pub mod Base
pub mod Client
pub mod CollectdTypes
pub mod Connmon
pub mod Network
pub mod Number
pub mod Protocol
pub mod Server
pub mod Stream
pub mod Tests
